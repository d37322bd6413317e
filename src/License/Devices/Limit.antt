-- ===== src/License/Devices/Limit.antt =====
-- How the handlers change the number of a customer's active devices.
use autoedge_licensing_serve.Prelude.{
  ℕ, ◌+◌, ◌≤◌, ◌≡◌, refl, sym, ◌∙◌, Bool, true, false, ◌&&◌, not, Option, none, some, List, [], ◌∷◌,
  ◌++◌, arith, All, Bool-cases, inl, inr, subst, false≢true, find, filter_by, update_where, length,
  is_some,
}
use autoedge_licensing_serve.Text.{Text, same_text}
use autoedge_licensing_serve.Text.Laws.{same_text_self, eq_of_same_text}
use autoedge_licensing_serve.Time.{Datetime}
use autoedge_licensing_serve.Database.{Platform, Database, Device, fresh_id}
use autoedge_licensing_serve.License.Client.{ClientType}
use autoedge_licensing_serve.License.Devices.{
  has_device_id, seen_device, write_device, upsert_device, known_device, is_counted_for,
  active_device_count, licensed_device, mark_device_licensed,
}

-- No two devices have one id (the table's PRIMARY KEY).
abbrev pub HasDeviceKey : List Device → Type 0
HasDeviceKey [] = Unit
HasDeviceKey (d ∷ rows) = All (λ e. has_device_id d.id e ≡ false) rows × HasDeviceKey rows

-- no device has the id that an INSERT is given
abbrev pub IsNewDevice : Text → List Device → Type 0
IsNewDevice id rows = All (λ d. same_text id d.id ≡ false) rows

abbrev counted : Text → List Device → ℕ
counted customer_id rows = length (filter_by (is_counted_for customer_id) rows)

-- an UPDATE that changes nothing that counts
counted_same :
    (c : Text) (test : Device → Bool) (f : Device → Device) (rows : List Device)
    → All (λ d. test d ≡ true → is_counted_for c (f d) ≡ is_counted_for c d) rows
    → counted c (update_where test f rows) ≡ counted c rows
counted_same c test f [] h = refl
counted_same c test f (d ∷ rows) h = elim (Bool-cases (test d)) [
  | inl e ↦ rw (e, h.0 e) (ground (arith, counted_same c test f rows h.1))
  | inr e ↦ rw e (ground (arith, counted_same c test f rows h.1))
]

none_updated :
    (c : Text) (test : Device → Bool) (f : Device → Device) (rows : List Device)
    → All (λ d. test d ≡ false) rows
    → update_where test f rows ≡ rows
none_updated c test f [] h = refl
none_updated c test f (d ∷ rows) h = rw (h.0, none_updated c test f rows h.1)

-- an UPDATE of the row with one id adds at most one to the count
counted_one_more :
    (c id : Text) (f : Device → Device) (rows : List Device)
    → HasDeviceKey rows
    → counted c (update_where (has_device_id id) f rows) ≤ counted c rows + 1
counted_one_more c id f [] k = omega arith
counted_one_more c id f (d ∷ rows) k = elim (Bool-cases (has_device_id id d)) [
  | inl here ↦
      let e : d.id ≡ id = eq_of_same_text d.id id here in
      rw (here, none_updated c (has_device_id id) f rows (rw e at k.0)) (ground arith)
  | inr other ↦ rw other (ground (arith, counted_one_more c id f rows k.1))
]

counted_insert :
    (c : Text) (d : Device) (rows : List Device)
    → is_counted_for c d ≡ false
    → counted c (rows ++ d ∷ []) ≡ counted c rows
counted_insert c d [] h = rw h
counted_insert c d (e ∷ rows) h = ground (arith, counted_insert c d rows h)

All-found :
    (P : Device → Type 0) (test : Device → Bool) (rows : List Device) {d : Device}
    → find test rows ≡ some d
    → All P rows
    → P d × (test d ≡ true)
All-found P test [] f h = cc
All-found P test (e ∷ rows) {d} f h = elim (Bool-cases (test e)) [
  | inl here ↦ let q : e ≡ d = ground arith in (subst P q h.0, rw (← q) here)
  | inr later ↦ All-found P test rows (rw later at f) h.1
]

determines :
    (test : Device → Bool) (rows : List Device) {d : Device}
    → HasDeviceKey rows
    → find test rows ≡ some d
    → All (λ e. has_device_id d.id e ≡ true → e ≡ d) rows
determines test [] k f = tt
determines test (e ∷ rows) {d} k f = elim (Bool-cases (test e)) [
  | inl here ↦ let q : e ≡ d = ground arith in ((λ _. q), apart rows (rw q at k.0))
  | inr later ↦
      let rest : find test rows ≡ some d = rw later at f in
      let other : same_text d.id e.id ≡ false =
        (All-found (λ x. has_device_id e.id x ≡ false) test rows rest k.0).0 in
      (
        (λ h.
            let q : e.id ≡ d.id = eq_of_same_text e.id d.id h in
            absurd (false≢true (sym other ∙ rw q (same_text_self d.id)))),
        determines test rows k.1 rest,
      )
]
  where
    apart :
        (xs : List Device)
        → All (λ x. has_device_id d.id x ≡ false) xs
        → All (λ x. has_device_id d.id x ≡ true → x ≡ d) xs
    apart [] h = tt
    apart (x ∷ xs) h = ((λ t. absurd (false≢true (sym h.0 ∙ t))), apart xs h.1)

key_insert :
    (d : Device) (rows : List Device)
    → HasDeviceKey rows
    → IsNewDevice d.id rows
    → HasDeviceKey (rows ++ d ∷ [])
key_insert d [] k n = (tt, tt)
key_insert d (e ∷ rows) k n = (other rows k.0, key_insert d rows k.1 n.1)
  where
    other :
        (xs : List Device)
        → All (λ x. has_device_id e.id x ≡ false) xs
        → All (λ x. has_device_id e.id x ≡ false) (xs ++ d ∷ [])
    other [] h = (n.0, tt)
    other (x ∷ xs) h = (h.0, other xs h.1)

All-ids :
    (id : Text) (test : Device → Bool) (f : Device → Device) (rows : List Device)
    → ((d : Device) → (f d).id ≡ d.id)
    → All (λ d. has_device_id id d ≡ false) rows
    → All (λ d. has_device_id id d ≡ false) (update_where test f rows)
All-ids id test f [] s h = tt
All-ids id test f (d ∷ rows) s h = elim (Bool-cases (test d)) [
  | inl e ↦ rw e (rw (s d) h.0, All-ids id test f rows s h.1)
  | inr e ↦ rw e (h.0, All-ids id test f rows s h.1)
]

key_update :
    (test : Device → Bool) (f : Device → Device) (rows : List Device)
    → ((d : Device) → (f d).id ≡ d.id)
    → HasDeviceKey rows
    → HasDeviceKey (update_where test f rows)
key_update test f [] s k = tt
key_update test f (d ∷ rows) s k = elim (Bool-cases (test d)) [
  | inl e ↦ rw e (rw (s d) (All-ids d.id test f rows s k.0), key_update test f rows s k.1)
  | inr e ↦ rw e (All-ids d.id test f rows s k.0, key_update test f rows s k.1)
]

-- the rows with an id count
abbrev pub Counts : Text → Text → List Device → Type 0
Counts customer_id id rows =
    All (λ d. has_device_id id d ≡ true → is_counted_for customer_id d ≡ true) rows

Counts-update :
    (c id : Text) (f : Device → Device) (d : Device) (rows : List Device)
    → (f d).id ≡ d.id
    → is_counted_for c (f d) ≡ true
    → All (λ e. has_device_id d.id e ≡ true → e ≡ d) rows
    → Counts c d.id (update_where (has_device_id d.id) f rows)
Counts-update c id f d [] s h det = tt
Counts-update c id f d (e ∷ rows) s h det = elim (Bool-cases (has_device_id d.id e)) [
  | inl here ↦ rw here ((λ _. rw (det.0 here) h), Counts-update c id f d rows s h det.1)
  | inr other ↦
      rw other ((λ t. absurd (false≢true (sym other ∙ t))), Counts-update c id f d rows s h det.1)
]

module _ (p : Platform) (customer_id machine_fingerprint : Text) (app_version : Option Text)
    (client_type : ClientType) (ip_address user_agent : Option Text) (now : Datetime)
    (db : Database) where
  abbrev after : Database × Device
  after =
      upsert_device p customer_id machine_fingerprint app_version client_type ip_address user_agent
        now db

  abbrev written : Option Device → Database × Device
  written existing =
      write_device p customer_id machine_fingerprint app_version client_type ip_address user_agent
        now db existing

  written_count :
      (c : Text) (existing : Option Device)
      → active_device_count (written existing).0 c ≡ active_device_count db c
  unfolding write_device active_device_count
  written_count c none = counted_insert c _ db.devices (ground arith)
  written_count c (some d) = counted_same c _ _ db.devices (unchanged db.devices)
    where
      unchanged :
          (rows : List Device)
          → All
              (λ e.
                has_device_id d.id e ≡ true
                → is_counted_for c (
                    seen_device p customer_id machine_fingerprint app_version client_type ip_address
                      user_agent now e)
                  ≡ is_counted_for c e)
              rows
      unchanged [] = tt
      unchanged (e ∷ rows) = ((λ _. refl), unchanged rows)

  -- To record a device changes no customer's number of active devices.
  pub upsert_count : (c : Text) → active_device_count after.0 c ≡ active_device_count db c
  unfolding upsert_device
  upsert_count c = written_count c _

  written_key :
      (existing : Option Device)
      → HasDeviceKey db.devices
      → IsNewDevice (fresh_id p db) db.devices
      → HasDeviceKey (written existing).0.devices
  unfolding write_device
  written_key none k n = key_insert _ db.devices k n
  written_key (some d) k n = key_update _ _ db.devices (λ e. refl) k

  pub upsert_key :
      HasDeviceKey db.devices
      → IsNewDevice (fresh_id p db) db.devices
      → HasDeviceKey after.0.devices
  unfolding upsert_device
  upsert_key k n = written_key _ k n

  written-Counts :
      (existing : Option Device)
      → HasDeviceKey db.devices
      → known_device p customer_id machine_fingerprint app_version client_type ip_address user_agent
          now db
        ≡ existing
      → (is_some (written existing).1.first_licensed_at && not (written existing).1.is_blocked)
        ≡ true
      → Counts customer_id (written existing).1.id (written existing).0.devices
  unfolding write_device
  written-Counts none k f h = cc
  written-Counts (some d) k f h =
      let (_, mine) = All-found (λ _. Unit {0}) _ db.devices f (trivial db.devices) in
      Counts-update customer_id d.id _ d db.devices refl (ground arith)
        (determines _ db.devices k f)
    where
      trivial : (rows : List Device) → All (λ _. Unit {0}) rows
      trivial [] = tt
      trivial (e ∷ rows) = (tt, trivial rows)

  pub upsert-Counts :
      HasDeviceKey db.devices
      → (is_some after.1.first_licensed_at && not after.1.is_blocked) ≡ true
      → Counts customer_id after.1.id after.0.devices
  unfolding upsert_device
  upsert-Counts k h = written-Counts _ k refl h

-- To mark a device as licensed adds at most one to the number of active devices, and nothing if
-- the device counts already.
pub mark_count :
    (db : Database) (device : Device) (now : Datetime) (c : Text)
    → HasDeviceKey db.devices
    → active_device_count (mark_device_licensed db device now).0 c ≤ active_device_count db c + 1
unfolding mark_device_licensed active_device_count
mark_count db device now c k = counted_one_more c device.id _ db.devices k

pub mark_count_counted :
    (db : Database) (device : Device) (now : Datetime) (c : Text)
    → Counts c device.id db.devices
    → active_device_count (mark_device_licensed db device now).0 c ≡ active_device_count db c
unfolding mark_device_licensed active_device_count
mark_count_counted db device now c h = counted_same c _ _ db.devices (same db.devices h)
  where
    same :
        (rows : List Device)
        → Counts c device.id rows
        → All
            (λ d.
              has_device_id device.id d ≡ true
              → is_counted_for c (licensed_device now d) ≡ is_counted_for c d)
            rows
    same [] h = tt
    same (d ∷ rows) h = ((λ t. ground (arith, h.0 t)), same rows h.1)
