-- ===== src/Database/Keys.antt =====
-- Entitlement rows under an UPDATE of the row with one id, and under an INSERT: which rows stay.
use autoedge_licensing_serve.Prelude.{
  ◌≡◌, ◌≢◌, refl, sym, Bool, true, Option, none, some, List, [], ◌∷◌, ◌++◌, arith, All, find,
  update_where, Bool-cases, inl, inr, ◌≤◌, subst, ap, ◌∙◌, map,
}
use autoedge_licensing_serve.Text.{Text, same_text}
use autoedge_licensing_serve.Text.Laws.{eq_of_same_text, same_text_self}
use autoedge_licensing_serve.Time.{Stamp}
use autoedge_licensing_serve.Database.Rows.{Entitlement}

-- No two rows have one id (the table's PRIMARY KEY).
abbrev pub HasKey : List Entitlement → Type 0
HasKey [] = Unit
HasKey (r ∷ rows) = All (λ s. r.id ≢ s.id) rows × HasKey rows

-- Access until `e` is not shortened by access until `e'`; no expiry is access for ever.
abbrev pub NotShorter : Option Stamp → Option Stamp → Type 0
NotShorter e none = Unit
NotShorter none (some t) = ⊥
NotShorter (some s) (some t) = s ≤ t

pub NotShorter-refl : (e : Option Stamp) → NotShorter e e
NotShorter-refl none = tt
NotShorter-refl (some s) = omega arith

-- Every row of the first list is still there, in its place, under its id, and its access is not
-- shortened; rows may have been added behind.
abbrev pub KeepsCoverage : List Entitlement → List Entitlement → Type 0
KeepsCoverage [] rows = Unit
KeepsCoverage (r ∷ rows) [] = ⊥
KeepsCoverage (r ∷ rows) (s ∷ rows') =
    (r.id ≡ s.id) × NotShorter r.expires_at s.expires_at × KeepsCoverage rows rows'

pub KeepsCoverage-refl : (rows : List Entitlement) → KeepsCoverage rows rows
KeepsCoverage-refl [] = tt
KeepsCoverage-refl (r ∷ rows) = (refl, NotShorter-refl r.expires_at, KeepsCoverage-refl rows)

pub KeepsCoverage-insert :
    (rows : List Entitlement) (e : Entitlement) → KeepsCoverage rows (rows ++ e ∷ [])
KeepsCoverage-insert [] e = tt
KeepsCoverage-insert (r ∷ rows) e =
    (refl, NotShorter-refl r.expires_at, KeepsCoverage-insert rows e)

-- a row with the id of the one that was found is that one
abbrev Determines : Entitlement → List Entitlement → Type 0
Determines e rows = All (λ r. r.id ≡ e.id → r ≡ e) rows

All-find {κ} :
    (P : Entitlement → Type κ) (test : Entitlement → Bool) (rows : List Entitlement)
    {e : Entitlement}
    → find test rows ≡ some e
    → All P rows
    → P e
All-find P test [] f h = cc
All-find P test (r ∷ rows) {e} f h = elim (Bool-cases (test r)) [
  | inl yes' ↦ subst P (let q : r ≡ e = ground arith in q) h.0
  | inr no' ↦ All-find P test rows (let q : find test rows ≡ some e = ground arith in q) h.1
]

All-map {κ λ'} :
    (P : Entitlement → Type κ) (Q : Entitlement → Type λ') (rows : List Entitlement)
    → ((r : Entitlement) → P r → Q r)
    → All P rows
    → All Q rows
All-map P Q [] f h = tt
All-map P Q (r ∷ rows) f h = (f r h.0, All-map P Q rows f h.1)

find-Determines :
    (test : Entitlement → Bool) (rows : List Entitlement) {e : Entitlement}
    → HasKey rows
    → find test rows ≡ some e
    → Determines e rows
find-Determines test [] k f = tt
find-Determines test (r ∷ rows) {e} k f = elim (Bool-cases (test r)) [
  | inl yes' ↦
      let q : r ≡ e = ground arith in
      (
        (λ _. q),
        All-map _ _ rows (λ s h m. absurd (h (ap (λ (x : Entitlement). x.id) q ∙ sym m))) k.0,
      )
  | inr no' ↦
      let q : find test rows ≡ some e = ground arith in
      (
        (λ m. absurd (All-find (λ s. r.id ≢ s.id) test rows q k.0 m)),
        find-Determines test rows k.1 q,
      )
]

-- An UPDATE of the found row that keeps its id and does not shorten its access.
update-Determines :
    (f : Entitlement → Entitlement) (e : Entitlement) (rows : List Entitlement)
    → ((f e).id ≡ e.id)
    → NotShorter e.expires_at (f e).expires_at
    → Determines e rows
    → KeepsCoverage rows (update_where (λ r. same_text r.id e.id) f rows)
update-Determines f e [] i n d = tt
update-Determines f e (r ∷ rows) i n d = elim (Bool-cases (same_text r.id e.id)) [
  | inl here ↦
      let q : r ≡ e = d.0 (eq_of_same_text r.id e.id here) in
      rw here (rw q (sym i, n, update-Determines f e rows i n d.1))
  | inr other ↦ rw other (refl, NotShorter-refl r.expires_at, update-Determines f e rows i n d.1)
]

pub KeepsCoverage-update :
    (test : Entitlement → Bool) (f : Entitlement → Entitlement) {e : Entitlement}
    (rows : List Entitlement)
    → HasKey rows
    → find test rows ≡ some e
    → (f e).id ≡ e.id
    → NotShorter e.expires_at (f e).expires_at
    → KeepsCoverage rows (update_where (λ r. same_text r.id e.id) f rows)
KeepsCoverage-update test f {e} rows k found i n =
    update-Determines f e rows i n (find-Determines test rows k found)

pub find-passes :
    (test : Entitlement → Bool) (rows : List Entitlement) {e : Entitlement}
    → find test rows ≡ some e
    → test e ≡ true
find-passes test [] h = cc
find-passes test (r ∷ rows) {e} h = elim (Bool-cases (test r)) [
  | inl here ↦ let q : r ≡ e = ground arith in rw (← q) here
  | inr later ↦ find-passes test rows (let q : find test rows ≡ some e = ground arith in q)
]

find-update-Determines :
    (test : Entitlement → Bool) (f : Entitlement → Entitlement) (e : Entitlement)
    (rows : List Entitlement)
    → Determines e rows
    → test e ≡ true
    → find test rows ≡ some e
    → test (f e) ≡ true
    → find test (update_where (λ r. same_text r.id e.id) f rows) ≡ some (f e)
find-update-Determines test f e [] d p found passes = cc
find-update-Determines test f e (r ∷ rows) d p found passes =
    elim (Bool-cases (same_text r.id e.id)) [
      | inl here ↦ let q : r ≡ e = d.0 (eq_of_same_text r.id e.id here) in rw here (rw (q, passes))
      | inr other ↦ elim (Bool-cases (test r)) [
        | inl hit ↦
            let q : r ≡ e = ground arith in
            let t : same_text r.id e.id ≡ true = rw q (same_text_self e.id) in cc (t, other)
        | inr miss ↦
            let rest : find test rows ≡ some e = ground arith in
            rw (other, miss) (find-update-Determines test f e rows d.1 p rest passes)
      ]
    ]

-- An UPDATE of the first row that passes a test, to a row that passes it too, is found again.
pub find-update :
    (test : Entitlement → Bool) (f : Entitlement → Entitlement) {e : Entitlement}
    (rows : List Entitlement)
    → HasKey rows
    → find test rows ≡ some e
    → test (f e) ≡ true
    → find test (update_where (λ r. same_text r.id e.id) f rows) ≡ some (f e)
find-update test f {e} rows key found passes =
    find-update-Determines test f e rows (find-Determines test rows key found)
      (find-passes test rows found) found passes

-- An INSERT of a row that passes, where none did, is found.
pub find-insert :
    (test : Entitlement → Bool) (e : Entitlement) (rows : List Entitlement)
    → find test rows ≡ none
    → test e ≡ true
    → find test (rows ++ e ∷ []) ≡ some e
find-insert test e [] h t = rw t
find-insert test e (r ∷ rows) h t = ground (arith, find-insert test e rows)

-- no row has the id that an INSERT is given
abbrev pub IsFresh : Text → List Entitlement → Type 0
IsFresh id rows = All (λ r. r.id ≢ id) rows

pub HasKey-insert :
    (rows : List Entitlement) (e : Entitlement)
    → HasKey rows
    → IsFresh e.id rows
    → HasKey (rows ++ e ∷ [])
HasKey-insert [] e k f = (tt, tt)
HasKey-insert (r ∷ rows) e k f = (other rows k.0, HasKey-insert rows e k.1 f.1)
  where
    other :
        (rows : List Entitlement)
        → All (λ s. r.id ≢ s.id) rows
        → All (λ s. r.id ≢ s.id) (rows ++ e ∷ [])
    other [] h = (f.0, tt)
    other (s ∷ rows) h = (h.0, other rows h.1)

All-update :
    (i : Text) (test : Entitlement → Bool) (f : Entitlement → Entitlement) (rows : List Entitlement)
    → ((e : Entitlement) → (f e).id ≡ e.id)
    → All (λ s. i ≢ s.id) rows
    → All (λ s. i ≢ s.id) (update_where test f rows)
All-update i test f [] same h = tt
All-update i test f (r ∷ rows) same h = elim (Bool-cases (test r)) [
  | inl e ↦ rw e ((λ m. h.0 (m ∙ same r)), All-update i test f rows same h.1)
  | inr e ↦ rw e (h.0, All-update i test f rows same h.1)
]

pub HasKey-update :
    (test : Entitlement → Bool) (f : Entitlement → Entitlement) (rows : List Entitlement)
    → ((e : Entitlement) → (f e).id ≡ e.id)
    → HasKey rows
    → HasKey (update_where test f rows)
HasKey-update test f [] same k = tt
HasKey-update test f (r ∷ rows) same k = elim (Bool-cases (test r)) [
  | inl e ↦
      rw e (rw (same r) (All-update r.id test f rows same k.0), HasKey-update test f rows same k.1)
  | inr e ↦ rw e (All-update r.id test f rows same k.0, HasKey-update test f rows same k.1)
]

abbrev pub expiries : List Entitlement → List (Option Stamp)
expiries = map (λ e. e.expires_at)

expiries-Determines :
    (f : Entitlement → Entitlement) (e : Entitlement) (rows : List Entitlement)
    → (f e).expires_at ≡ e.expires_at
    → Determines e rows
    → expiries (update_where (λ r. same_text r.id e.id) f rows) ≡ expiries rows
expiries-Determines f e [] same d = refl
expiries-Determines f e (r ∷ rows) same d = elim (Bool-cases (same_text r.id e.id)) [
  | inl here ↦
      let q : r ≡ e = d.0 (eq_of_same_text r.id e.id here) in
      rw here (rw q (cc (same, expiries-Determines f e rows same d.1)))
  | inr other ↦ rw other (cc (expiries-Determines f e rows same d.1))
]

-- An UPDATE of the found row that leaves its expiry leaves every row's.
pub expiries-update :
    (test : Entitlement → Bool) (f : Entitlement → Entitlement) {e : Entitlement}
    (rows : List Entitlement)
    → HasKey rows
    → find test rows ≡ some e
    → (f e).expires_at ≡ e.expires_at
    → expiries (update_where (λ r. same_text r.id e.id) f rows) ≡ expiries rows
expiries-update test f {e} rows key found same =
    expiries-Determines f e rows same (find-Determines test rows key found)

-- The row that a test finds is found by its id.
pub find-id :
    (test : Entitlement → Bool) {e : Entitlement} (rows : List Entitlement)
    → HasKey rows
    → find test rows ≡ some e
    → find (λ r. same_text r.id e.id) rows ≡ some e
find-id test [] key found = cc
find-id test {e} (r ∷ rows) key found = elim (Bool-cases (test r)) [
  | inl here ↦ let q : r ≡ e = ground arith in rw (q, same_text_self e.id)
  | inr later ↦
      let rest : find test rows ≡ some e = rw later at found in
      elim (Bool-cases (same_text r.id e.id)) [
        | inl same ↦
            absurd
              (All-find (λ s. r.id ≢ s.id) test rows rest key.0 (eq_of_same_text r.id e.id same))
        | inr other ↦ rw other (find-id test rows key.1 rest)
      ]
]

pub find-fresh :
    (id : Text) (rows : List Entitlement)
    → IsFresh id rows
    → find (λ r. same_text r.id id) rows ≡ none
find-fresh id [] f = refl
find-fresh id (r ∷ rows) f = elim (Bool-cases (same_text r.id id)) [
  | inl same ↦ absurd (f.0 (eq_of_same_text r.id id same))
  | inr other ↦ rw other (find-fresh id rows f.1)
]
