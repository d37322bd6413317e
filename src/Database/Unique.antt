-- ===== src/Database/Unique.antt =====
-- Rows under a key that no two of them share: the row that a SELECT finds is the only one that an
-- UPDATE of its key changes.
use autoedge_licensing_serve.Prelude.{
  ◌≡◌, ◌≢◌, sym, ◌∙◌, ap, Bool, true, some, List, [], ◌∷◌, arith, All, All-weaken, find,
  update_where, Bool-cases, inl, inr, subst,
}
use autoedge_licensing_serve.Text.{Text, same_text}
use autoedge_licensing_serve.Text.Laws.{eq_of_same_text}

module _ {A : Type 0} (key : A → Text) where
  abbrev pub HasUnique : List A → Type 0
  HasUnique [] = Unit
  HasUnique (r ∷ rows) = All (λ s. key r ≢ key s) rows × HasUnique rows

  -- a row with the key of this one is this one
  abbrev pub IsOnly : A → List A → Type 0
  IsOnly x rows = All (λ r. same_text (key r) (key x) ≡ true → r ≡ x) rows

  pub All-found :
      (P : A → Type 0) (test : A → Bool) (rows : List A) {x : A}
      → find test rows ≡ some x
      → All P rows
      → P x
  All-found P test [] f h = cc
  All-found P test (r ∷ rows) {x} f h = elim (Bool-cases (test r)) [
    | inl hit ↦ subst P (let q : r ≡ x = ground arith in q) h.0
    | inr miss ↦ All-found P test rows (let q : find test rows ≡ some x = ground arith in q) h.1
  ]

  pub found-IsOnly :
      (test : A → Bool) (rows : List A) {x : A}
      → HasUnique rows
      → find test rows ≡ some x
      → IsOnly x rows
  found-IsOnly test [] u f = tt
  found-IsOnly test (r ∷ rows) {x} u f = elim (Bool-cases (test r)) [
    | inl hit ↦
        let q : r ≡ x = ground arith in
        (
          (λ m. q),
          All-weaken _ _ rows
              (λ s h m. absurd (h (ap key q ∙ sym (eq_of_same_text (key s) (key x) m)))) u.0,
        )
    | inr miss ↦
        let q : find test rows ≡ some x = ground arith in
        (
          (λ m.
              absurd (
                All-found (λ s. key r ≢ key s) test rows q u.0
                  (eq_of_same_text (key r) (key x) m))),
          found-IsOnly test rows u.1 q,
        )
  ]

-- The row that a SELECT finds by a test, after an UPDATE of the rows that pass it.
pub find-updated :
    {A : Type 0} (test : A → Bool) (f : A → A) (rows : List A) {x : A}
    → find test rows ≡ some x
    → test (f x) ≡ true
    → find test (update_where test f rows) ≡ some (f x)
find-updated test f [] h t = cc
find-updated test f (r ∷ rows) {x} h t = elim (Bool-cases (test r)) [
  | inl e ↦ let q : r ≡ x = ground arith in rw (e, q, t)
  | inr e ↦ rw (e, e) (find-updated test f rows (rw e at h) t)
]

pub found-passes :
    {A : Type 0} (test : A → Bool) (rows : List A) {x : A} → find test rows ≡ some x → test x ≡ true
found-passes test [] h = cc
found-passes test (r ∷ rows) {x} h = elim (Bool-cases (test r)) [
  | inl e ↦ let q : r ≡ x = ground arith in rw (← q) e
  | inr e ↦ found-passes test rows (rw e at h)
]

-- The row that a SELECT finds, after an UPDATE of other rows also, which keeps the test.
pub find-written :
    {A : Type 0} (test written : A → Bool) (f : A → A) (rows : List A) {x : A}
    → ((r : A) → test (f r) ≡ test r)
    → ((r : A) → test r ≡ true → written r ≡ true)
    → find test rows ≡ some x
    → find test (update_where written f rows) ≡ some (f x)
find-written test written f [] keeps writes h = cc
find-written test written f (r ∷ rows) {x} keeps writes h = elim (Bool-cases (test r)) [
  | inl e ↦ let q : r ≡ x = ground arith in rw (writes r e, keeps r, e, q)
  | inr e ↦ elim (Bool-cases (written r)) [
    | inl w ↦ rw (w, keeps r, e) (find-written test written f rows keeps writes (rw e at h))
    | inr w ↦ rw (w, e) (find-written test written f rows keeps writes (rw e at h))
  ]
]
