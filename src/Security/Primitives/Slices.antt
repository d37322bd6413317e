-- ===== src/Security/Primitives/Slices.antt =====
-- Slices of lists, and `rstrip` and `rsplit` on one character.
use autoedge_licensing_serve.Prelude.{
  ℕ, zero, suc, ◌+◌, ◌≡◌, ◌≢◌, ◌≤◌, refl, Option, none, some, List, [], ◌∷◌, ◌++◌, length, take,
  drop, All, arith, ◌==◌, ==_iff, if◌then◌else◌,
}

module _ {ℓ} {A : Type ℓ} where
  pub length-append : (xs ys : List A) → length (xs ++ ys) ≡ length xs + length ys
  length-append [] ys = omega arith
  length-append (x ∷ xs) ys = omega (arith, length-append xs ys)

  pub take-length : (xs ys : List A) → take (length xs) (xs ++ ys) ≡ xs
  take-length [] ys = refl
  take-length (x ∷ xs) ys = cc (take-length xs ys)

  pub drop-length : (xs ys : List A) → drop (length xs) (xs ++ ys) ≡ ys
  drop-length [] ys = refl
  drop-length (x ∷ xs) ys = drop-length xs ys

  pub length-take : (n : ℕ) (xs : List A) → n ≤ length xs → length (take n xs) ≡ n
  length-take zero xs h = refl
  length-take (suc n) [] h = absurd (omega arith)
  length-take (suc n) (x ∷ xs) h = ground (arith, length-take n xs (omega arith))

-- puts a character before a text that `rstrip` has stripped behind it
abbrev pub onto_stripped : ℕ → ℕ → List ℕ → List ℕ
onto_stripped c d [] = if d == c then [] else d ∷ []
onto_stripped c d (e ∷ rest) = d ∷ e ∷ rest

-- `s.rstrip(c)`
unfoldable pub strip_right : ℕ → List ℕ → List ℕ
strip_right c [] = []
strip_right c (d ∷ s) = onto_stripped c d (strip_right c s)

-- puts a character before the first part, or splits there
abbrev pub onto_split : ℕ → ℕ → List ℕ → Option (List ℕ × List ℕ) → Option (List ℕ × List ℕ)
onto_split c d s none = if d == c then some ([], s) else none
onto_split c d s (some (left, right)) = some (d ∷ left, right)

-- `s.rsplit(c, 1)` where `c` is in `s`; none where it is not
unfoldable pub split_last : ℕ → List ℕ → Option (List ℕ × List ℕ)
split_last c [] = none
split_last c (d ∷ s) = onto_split c d s (split_last c s)

pub split_last-none : (c : ℕ) (s : List ℕ) → All (λ d. d ≢ c) s → split_last c s ≡ none
unfolding split_last
split_last-none c [] a = refl
split_last-none c (d ∷ s) a = rw (split_last-none c s a.1) (ground (arith, a.0))

-- A text with no `c` is split off what stands before it.
pub split_last-append :
    (c : ℕ) (s t : List ℕ) → All (λ d. d ≢ c) t → split_last c (s ++ c ∷ t) ≡ some (s, t)
unfolding split_last
split_last-append c [] t a = rw (split_last-none c t a) (rw ((==_iff c c).1 refl))
split_last-append c (d ∷ s) t a = rw (split_last-append c s t a)

-- The parts make up the text.
pub split_last-parts :
    (c : ℕ) (s : List ℕ) {left right : List ℕ}
    → split_last c s ≡ some (left, right)
    → s ≡ left ++ c ∷ right
unfolding split_last
split_last-parts c [] h = cc
split_last-parts c (d ∷ s) {left} {right} h =
    parts (split_last c s) (λ l r e. split_last-parts c s e) h
  where
    parts :
        (o : Option (List ℕ × List ℕ))
        → ((l r : List ℕ) → o ≡ some (l, r) → s ≡ l ++ c ∷ r)
        → onto_split c d s o ≡ some (left, right)
        → d ∷ s ≡ left ++ c ∷ right
    parts none ih e = ground arith
    parts (some (l, r)) ih e = ground (arith, ih l r refl)
