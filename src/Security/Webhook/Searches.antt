-- ===== src/Security/Webhook/Searches.antt =====
-- Lists that have a passing member, and texts that are not blank.
use autoedge_licensing_serve.Prelude.{
  ℕ, ◌≡◌, ◌≢◌, ◌↔◌, ◌⊎◌, refl, Bool, true, false, Option, none, some, List, [], ◌∷◌, ◌++◌, any,
  filter_by, arith, ◌==◌, Bool-cases, inl, inr, reverse,
}
use mathlib.Core.List.{reverse-append}
use autoedge_licensing_serve.Text.{Text, strip, strip_left, is_truthy, is_space}
use autoedge_licensing_serve.Security.Webhook.Verify.{split_first, onto_before}

-- one of the list
abbrev pub OneOf : {A : Type 0} → A → List A → Type 0
OneOf x [] = ⊥
OneOf x (y ∷ ys) = (x ≡ y) ⊎ OneOf x ys

pub any-OneOf :
    {A : Type 0} (test : A → Bool) (xs : List A)
    → (any test xs ≡ true) ↔ ((x : A) × OneOf x xs × (test x ≡ true))
any-OneOf test [] = ((λ e. cc), λ (x, m, t). absurd m)
any-OneOf test (y ∷ ys) = elim (Bool-cases (test y)) [
  | inl e ↦ ((λ h. (y, inl refl, e)), λ w. rw e)
  | inr e ↦ (
    (λ h. let (x, m, t) = (any-OneOf test ys).0 (rw e at h) in (x, inr m, t)),
    λ (x, m, t). elim m [ inl q ↦ cc | inr later ↦ rw e ((any-OneOf test ys).1 (x, later, t)) ],
  )
]

pub OneOf-filter :
    {A : Type 0} (test : A → Bool) (x : A) (xs : List A)
    → OneOf x (filter_by test xs) ↔ (OneOf x xs × (test x ≡ true))
OneOf-filter test x [] = ((λ m. absurd m), λ (m, t). m)
OneOf-filter test x (y ∷ ys) = elim (Bool-cases (test y)) [
  | inl e ↦ rw e (
    (λ m. elim m [
      | inl q ↦ (inl q, rw q e)
      | inr later ↦ let (m', t) = (OneOf-filter test x ys).0 later in (inr m', t)
    ]),
    λ (m, t). elim m [ inl q ↦ inl q | inr later ↦ inr ((OneOf-filter test x ys).1 (later, t)) ],
  )
  | inr e ↦ rw e (
    (λ m. let (m', t) = (OneOf-filter test x ys).0 m in (inr m', t)),
    λ (m, t). elim m [ inl q ↦ cc | inr later ↦ (OneOf-filter test x ys).1 (later, t) ],
  )
]

pub truthy-nonempty : (o : Option Text) → is_truthy o ≡ true → (s : Text) × (o ≡ some s) × (s ≢ [])
truthy-nonempty none h = cc
truthy-nonempty (some []) h = cc
truthy-nonempty (some (c ∷ s)) h = (c ∷ s, refl, λ e. cc)

pub nonempty-truthy : (s : Text) → s ≢ [] → is_truthy (some s) ≡ true
nonempty-truthy [] h = absurd (h refl)
nonempty-truthy (c ∷ s) h = refl

strip_left-last :
    (s : Text) (c : ℕ) → is_space c ≡ false → is_truthy (some (strip_left (s ++ c ∷ []))) ≡ true
unfolding strip_left
strip_left-last [] c h = rw h
strip_left-last (d ∷ s) c h = elim (Bool-cases (is_space d)) [
  | inl e ↦ rw e (strip_left-last s c h)
  | inr e ↦ rw e
]

reverse-truthy : (s : Text) → is_truthy (some s) ≡ true → is_truthy (some (reverse s)) ≡ true
reverse-truthy [] h = cc
reverse-truthy (c ∷ s) h = rw (reverse-append (c ∷ []) s) (added (reverse s))
  where
    added : (t : Text) → is_truthy (some (t ++ c ∷ [])) ≡ true
    added [] = refl
    added (d ∷ t) = refl

-- A text that begins with a visible character is not blank.
pub strip-truthy : (c : ℕ) (s : Text) → is_space c ≡ false → is_truthy (some (strip (c ∷ s))) ≡ true
unfolding strip
strip-truthy c s h =
    let visible : strip_left (c ∷ s) ≡ c ∷ s = unfold strip_left in rw h in
    rw (visible, reverse-append (c ∷ []) s) (reverse-truthy _ (strip_left-last (reverse s) c h))

pub split_first-parts :
    (c : ℕ) (s : Text) {left right : Text}
    → split_first c s ≡ some (left, right)
    → s ≡ left ++ c ∷ right
unfolding split_first
split_first-parts c [] h = cc
split_first-parts c (d ∷ s) {left} {right} h = elim (Bool-cases (d == c)) [
  | inl e ↦ ground arith
  | inr e ↦ behind (split_first c s) (λ l r q. split_first-parts c s q) (rw e at h)
]
  where
    behind :
        (o : Option (Text × Text))
        → ((l r : Text) → o ≡ some (l, r) → s ≡ l ++ c ∷ r)
        → onto_before d o ≡ some (left, right)
        → d ∷ s ≡ left ++ c ∷ right
    behind none ih e = cc
    behind (some (l, r)) ih e = ground (arith, ih l r refl)
