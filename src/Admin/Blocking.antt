-- ===== src/Admin/Blocking.antt =====
-- Blocking the devices of a customer.
use autoedge_licensing_serve.Prelude.{
  ◌≡◌, ◌≢◌, refl, sym, ◌∙◌, true, Option, List, [], ◌∷◌, arith, Bool-cases, inl, inr, filter_by,
  update_where, length, ℕ,
}
use autoedge_licensing_serve.Text.{Text, same_text}
use autoedge_licensing_serve.Text.Laws.{eq_of_same_text}
use autoedge_licensing_serve.Time.{Datetime}
use autoedge_licensing_serve.Database.{Platform, Database, Device}
use autoedge_licensing_serve.License.Devices.{is_counted_for, active_device_count}
use autoedge_licensing_serve.Admin.{ok, with_block, is_to_block, block_all_customer_devices}

none_counted :
    (p : Platform) (a c : Text) (ip remark : Option Text) (now : Datetime) (rows : List Device)
    → length (
        filter_by
          (is_counted_for c)
          (update_where (is_to_block p a ip now c) (with_block p a ip now true remark) rows))
      ≡ 0
none_counted p a c ip remark now [] = refl
none_counted p a c ip remark now (d ∷ rows) = elim (Bool-cases (is_to_block p a ip now c d)) [
  | inl hit ↦ rw hit (ground (arith, none_counted p a c ip remark now rows))
  | inr miss ↦ rw miss (ground (arith, none_counted p a c ip remark now rows))
]

none_left :
    (p : Platform) (a c : Text) (ip remark : Option Text) (now : Datetime) (rows : List Device)
    → length (
        filter_by
          (is_to_block p a ip now c)
          (update_where (is_to_block p a ip now c) (with_block p a ip now true remark) rows))
      ≡ 0
none_left p a c ip remark now [] = refl
none_left p a c ip remark now (d ∷ rows) = elim (Bool-cases (is_to_block p a ip now c d)) [
  | inl hit ↦ rw hit (ground (arith, none_left p a c ip remark now rows))
  | inr miss ↦ rw (miss, miss) (none_left p a c ip remark now rows)
]

others_counted :
    (p : Platform) (a c other : Text) (ip remark : Option Text) (now : Datetime)
    (rows : List Device)
    → other ≢ c
    → length (
        filter_by
          (is_counted_for other)
          (update_where (is_to_block p a ip now c) (with_block p a ip now true remark) rows))
      ≡ length (filter_by (is_counted_for other) rows)
others_counted p a c other ip remark now [] ne = refl
others_counted p a c other ip remark now (d ∷ rows) ne =
    elim (Bool-cases (is_to_block p a ip now c d)) [
      | inl hit ↦ elim (Bool-cases (same_text d.customer_id other)) [
        | inl same ↦ absurd (
            ne (
              sym (eq_of_same_text d.customer_id other same)
              ∙ eq_of_same_text d.customer_id c (ground arith)))
        | inr apart ↦ rw (hit, apart) (others_counted p a c other ip remark now rows ne)
      ]
      | inr miss ↦ rw miss (ground (arith, others_counted p a c other ip remark now rows ne))
    ]

-- When the devices of a customer are blocked, none of them counts as active, another customer's
-- number of active devices is as before, and none is left that the same call would block.
pub block_all_lem :
    (p : Platform) (actor_id : Text) (ip_address : Option Text) (now : Datetime)
    (customer_id : Text) (remark : Option Text) (db : Database) {db' : Database} {n : ℕ}
    → block_all_customer_devices p actor_id ip_address now customer_id remark db ≡ ok (db', n)
    → (active_device_count db' customer_id ≡ 0)
      × ((other : Text)
          → other ≢ customer_id
          → active_device_count db' other ≡ active_device_count db other)
      × (length (filter_by (is_to_block p actor_id ip_address now customer_id) db'.devices) ≡ 0)
unfolding block_all_customer_devices active_device_count
block_all_lem p actor_id ip_address now customer_id remark db {db'} {n} h =
    let e : db'.devices
        ≡ update_where (is_to_block p actor_id ip_address now customer_id)
            (with_block p actor_id ip_address now true remark) db.devices =
      ground arith in
    (
      rw e (none_counted p actor_id customer_id ip_address remark now db.devices),
      (λ other ne.
          rw e (others_counted p actor_id customer_id other ip_address remark now db.devices ne)),
      rw e (none_left p actor_id customer_id ip_address remark now db.devices),
    )
