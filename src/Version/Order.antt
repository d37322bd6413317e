-- ===== src/Version/Order.antt =====
-- `compare_versions` and `version_is_newer` as an order on version numbers.
use autoedge_licensing_serve.Prelude.{
  ℕ, zero, suc, ◌-◌, ◌≤◌, ◌≡◌, refl, ◌↔◌, true, false, Option, some, List, [], ◌∷◌, arith, max,
  length, ltb, ◌==◌, if◌then◌else◌,
}
use autoedge_licensing_serve.Text.{Text, strip, is_truthy, or_empty}
use autoedge_licensing_serve.Version.{
  Comparison, older, same, newer, padded, list_gt, list_eq, compare_parts, compare_versions,
  version_is_newer, parse_version_parts,
}

-- The independent description: numbers compared in turn, a number that is missing counts as 0.
pub compare_numbers : List ℕ → List ℕ → Comparison
compare_numbers [] [] = same
compare_numbers [] (y ∷ ys) = if y == 0 then compare_numbers [] ys else older
compare_numbers (x ∷ xs) [] = if x == 0 then compare_numbers xs [] else newer
compare_numbers (x ∷ xs) (y ∷ ys) =
    if ltb x y then older else if ltb y x then newer else compare_numbers xs ys

-- what the code reads off two padded lists
abbrev verdict : List ℕ → List ℕ → Comparison
verdict xs ys = if list_eq xs ys then same else if list_gt xs ys then newer else older

verdict-cons :
    (x y : ℕ) (xs ys : List ℕ)
    → verdict (x ∷ xs) (y ∷ ys)
      ≡ (if ltb x y then older else if ltb y x then newer else verdict xs ys)
unfolding list_eq list_gt
verdict-cons x y xs ys = ground arith

padded-cons : (n x : ℕ) (xs : List ℕ) → padded (suc n) (x ∷ xs) ≡ x ∷ padded n xs
unfolding padded
padded-cons n x xs = let e : suc n - suc (length xs) ≡ n - length xs = omega arith in rw e

padded-nil : (n : ℕ) → padded (suc n) [] ≡ 0 ∷ padded n []
unfolding padded
padded-nil n =
    let e : suc n - 0 ≡ suc n = omega arith in let f : n - 0 ≡ n = omega arith in rw (e, f)

verdict-zeros : (n : ℕ) → verdict (padded n []) (padded n []) ≡ same
unfolding padded list_eq list_gt
verdict-zeros zero = refl
verdict-zeros (suc n) = rw (padded-nil n, verdict-cons) (ground (arith, verdict-zeros n))

verdict-padded :
    (n : ℕ) (xs ys : List ℕ)
    → length xs ≤ n
    → length ys ≤ n
    → verdict (padded n xs) (padded n ys) ≡ compare_numbers xs ys
unfolding compare_numbers
verdict-padded n [] [] hx hy = verdict-zeros n
verdict-padded zero [] (y ∷ ys) hx hy = absurd (omega arith)
verdict-padded zero (x ∷ xs) ys hx hy = absurd (omega arith)
verdict-padded (suc n) [] (y ∷ ys) hx hy =
    rw (padded-nil n, padded-cons n y ys, verdict-cons 0 y (padded n []) (padded n ys))
      (ground (arith, verdict-padded n [] ys))
verdict-padded (suc n) (x ∷ xs) [] hx hy =
    rw (padded-nil n, padded-cons n x xs, verdict-cons x 0 (padded n xs) (padded n []))
      (ground (arith, verdict-padded n xs []))
verdict-padded (suc n) (x ∷ xs) (y ∷ ys) hx hy =
    rw (padded-cons n x xs, padded-cons n y ys, verdict-cons x y (padded n xs) (padded n ys))
      (ground (arith, verdict-padded n xs ys))

compare_parts-eq : (xs ys : List ℕ) → compare_parts xs ys ≡ compare_numbers xs ys
unfolding compare_parts
compare_parts-eq xs ys =
    verdict-padded (max (length xs) (length ys)) xs ys (omega arith) (omega arith)

-- On two versions that are given and not empty, padding with zeros and comparing lists, as the
-- code does, is the comparison of the numbers in turn with a missing number read as 0.
pub compare_versions-eq-compare_numbers :
    (left right : Option Text)
    → is_truthy left ≡ true
    → is_truthy right ≡ true
    → compare_versions left right
      ≡ compare_numbers (parse_version_parts left) (parse_version_parts right)
unfolding compare_versions
compare_versions-eq-compare_numbers left right p q = rw (p, q) (compare_parts-eq _ _)

abbrev pub opposite : Comparison → Comparison
opposite older = newer
opposite same = same
opposite newer = older

opposite-compare_numbers :
    (xs ys : List ℕ) → compare_numbers ys xs ≡ opposite (compare_numbers xs ys)
unfolding compare_numbers
opposite-compare_numbers [] [] = refl
opposite-compare_numbers [] (y ∷ ys) = ground (arith, opposite-compare_numbers [] ys)
opposite-compare_numbers (x ∷ xs) [] = ground (arith, opposite-compare_numbers xs [])
opposite-compare_numbers (x ∷ xs) (y ∷ ys) = ground (arith, opposite-compare_numbers xs ys)

-- Swapping the two versions gives the opposite answer, missing versions included.
pub compare_versions_swap :
    (left right : Option Text)
    → compare_versions right left ≡ opposite (compare_versions left right)
unfolding compare_versions
compare_versions_swap left right =
    let parts = opposite-compare_numbers (parse_version_parts left) (parse_version_parts right) in
    simp compare_parts-eq (ground (arith, parts))

abbrev pub NotNewer : Comparison → Type 0
NotNewer newer = ⊥
NotNewer _ = Unit

trans_numbers :
    (xs ys zs : List ℕ)
    → NotNewer (compare_numbers xs ys)
    → NotNewer (compare_numbers ys zs)
    → NotNewer (compare_numbers xs zs)
unfolding compare_numbers
trans_numbers [] [] zs p q = q
trans_numbers [] (y ∷ ys) [] p q = tt
trans_numbers [] (y ∷ ys) (z ∷ zs) p q = ground (arith, trans_numbers [] ys zs)
trans_numbers (x ∷ xs) [] [] p q = p
trans_numbers (x ∷ xs) [] (z ∷ zs) p q = ground (arith, trans_numbers xs [] zs)
trans_numbers (x ∷ xs) (y ∷ ys) [] p q = ground (arith, trans_numbers xs ys [])
trans_numbers (x ∷ xs) (y ∷ ys) (z ∷ zs) p q = ground (arith, trans_numbers xs ys zs)

-- "Not newer than" is transitive over all versions, missing and empty ones included.
pub compare_versions_trans :
    (a b c : Option Text)
    → NotNewer (compare_versions a b)
    → NotNewer (compare_versions b c)
    → NotNewer (compare_versions a c)
unfolding compare_versions
compare_versions_trans a b c = simp compare_parts-eq (
    ground (
      arith,
      trans_numbers (parse_version_parts a) (parse_version_parts b) (parse_version_parts c),
    ))

not-list_gt_of_list_eq : (xs ys : List ℕ) → list_gt xs ys ≡ true → list_eq xs ys ≡ false
unfolding list_gt list_eq
not-list_gt_of_list_eq [] ys h = cc
not-list_gt_of_list_eq (x ∷ xs) [] h = refl
not-list_gt_of_list_eq (x ∷ xs) (y ∷ ys) h = ground (arith, not-list_gt_of_list_eq xs ys)

-- Where the current version is given and has a character that is not white space, `version_is_newer` says yes
-- exactly when `compare_versions` returns 1.
pub version_is_newer_iff :
    (available current : Option Text)
    → is_truthy (some (strip (or_empty current))) ≡ true
    → is_truthy current ≡ true
    → (version_is_newer available current ≡ true) ↔ (compare_versions available current ≡ newer)
unfolding version_is_newer compare_versions compare_parts
version_is_newer_iff available current p q =
    let left = parse_version_parts available in
    let right = parse_version_parts current in
    let n = max (length left) (length right) in
    ground (arith, not-list_gt_of_list_eq (padded n left) (padded n right))
