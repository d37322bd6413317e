-- ===== src/Prelude/Lists.antt =====
-- Lists measured by native numbers, quantifiers over lists, and the first element that passes.
use Prim.Native.Nat.{ℕ, zero, suc}
use mathlib.Core.Path.{◌≡◌}
use mathlib.Core.Bool.{Bool, true, false, ◌||◌, ◌&&◌}
use mathlib.Core.List.{List, [], ◌∷◌, ◌++◌}
use mathlib.Core.Option.{Option, none, some}
use mathlib.Core.Logic.{inl, inr}
use autoedge_licensing_serve.Prelude.Tests.{if◌then◌else◌, Bool-cases}

module _ {ℓ} {A : Type ℓ} where
  abbrev pub length : List A → ℕ
  length [] = 0
  length (x ∷ xs) = suc (length xs)

  abbrev pub All {κ} : (A → Type κ) → List A → Type κ
  All P [] = Unit
  All P (x ∷ xs) = P x × All P xs

  -- `any(p(x) for x in xs)`
  abbrev pub any : (A → Bool) → List A → Bool
  any p [] = false
  any p (x ∷ xs) = p x || any p xs

  abbrev pub all : (A → Bool) → List A → Bool
  all p [] = true
  all p (x ∷ xs) = p x && all p xs

  -- the first element that passes, as a SELECT that is fetched once
  abbrev pub find : (A → Bool) → List A → Option A
  find p [] = none
  find p (x ∷ xs) = if p x then some x else find p xs

  -- `[x for x in xs if p(x)]`
  abbrev pub filter_by : (A → Bool) → List A → List A
  filter_by p [] = []
  filter_by p (x ∷ xs) = if p x then x ∷ filter_by p xs else filter_by p xs

  -- UPDATE … WHERE: every row that passes is replaced
  abbrev pub update_where : (A → Bool) → (A → A) → List A → List A
  update_where p f [] = []
  update_where p f (x ∷ xs) = (if p x then f x else x) ∷ update_where p f xs

  abbrev pub take : ℕ → List A → List A
  take zero xs = []
  take (suc n) [] = []
  take (suc n) (x ∷ xs) = x ∷ take n xs

  abbrev pub drop : ℕ → List A → List A
  drop zero xs = xs
  drop (suc n) [] = []
  drop (suc n) (x ∷ xs) = drop n xs

  pub All-added {κ} : (P : A → Type κ) (xs : List A) (x : A) → All P xs → P x → All P (xs ++ x ∷ [])
  All-added P [] x a h = (h, tt)
  All-added P (y ∷ xs) x a h = (a.0, All-added P xs x a.1 h)

  pub All-replaced {κ} :
      (P : A → Type κ) (test : A → Bool) (xs : List A) (x : A)
      → All P xs
      → P x
      → All P (update_where test (λ _. x) xs)
  All-replaced P test [] x a h = tt
  All-replaced P test (y ∷ xs) x a h = elim (Bool-cases (test y)) [
    | inl e ↦ rw e (h, All-replaced P test xs x a.1 h)
    | inr e ↦ rw e (a.0, All-replaced P test xs x a.1 h)
  ]

  -- what passes a test has the property, and passes
  pub All-filter {κ} :
      (P : A → Type κ) (test : A → Bool) (xs : List A)
      → All P xs
      → All (λ x. P x × (test x ≡ true)) (filter_by test xs)
  All-filter P test [] a = tt
  All-filter P test (x ∷ xs) a = elim (Bool-cases (test x)) [
    | inl e ↦ rw e ((a.0, e), All-filter P test xs a.1)
    | inr e ↦ rw e (All-filter P test xs a.1)
  ]

  pub All-weaken {κ μ} :
      (P : A → Type κ) (Q : A → Type μ) (xs : List A) → ((x : A) → P x → Q x) → All P xs → All Q xs
  All-weaken P Q [] f a = tt
  All-weaken P Q (x ∷ xs) f a = (f x a.0, All-weaken P Q xs f a.1)
