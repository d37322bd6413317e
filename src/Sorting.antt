-- ===== src/Sorting.antt =====
-- Python's `sorted` and SQL's ORDER BY, as a stable insertion sort, and the order of texts.
use autoedge_licensing_serve.Prelude.{
  Bool, true, false, ◌&&◌, ◌||◌, List, [], ◌∷◌, ltb, ◌==◌, if◌then◌else◌, Bool-cases, inl, inr, All,
}
use autoedge_licensing_serve.Text.{Text}

-- `left < right` on texts, by code points
unfoldable pub text_lt : Text → Text → Bool
text_lt s [] = false
text_lt [] (d ∷ t) = true
text_lt (c ∷ s) (d ∷ t) = ltb c d || ((c == d) && text_lt s t)

module _ {ℓ} {A : Type ℓ} (lt : A → A → Bool) where
  unfoldable pub insert : A → List A → List A
  insert x [] = x ∷ []
  insert x (y ∷ ys) = if lt y x then y ∷ insert x ys else x ∷ y ∷ ys

  unfoldable pub sort_by : List A → List A
  unfolding insert
  sort_by [] = []
  sort_by (x ∷ xs) = insert x (sort_by xs)

  All-insert {κ} : (P : A → Type κ) (x : A) (xs : List A) → P x → All P xs → All P (insert x xs)
  unfolding insert
  All-insert P x [] h a = (h, tt)
  All-insert P x (y ∷ ys) h a = elim (Bool-cases (lt y x)) [
    | inl e ↦ rw e (a.0, All-insert P x ys h a.1)
    | inr e ↦ rw e (h, a)
  ]

  pub All-sort_by {κ} : (P : A → Type κ) (xs : List A) → All P xs → All P (sort_by xs)
  unfolding sort_by
  All-sort_by P [] a = tt
  All-sort_by P (x ∷ xs) a = All-insert P x (sort_by xs) a.0 (All-sort_by P xs a.1)
