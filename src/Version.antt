-- ===== src/Version.antt =====
-- Release versions: `parse_version_parts`, `version_is_newer`, `compare_versions`, `release_action`
-- and `release_action_for_row` of autoedge_licensing/service.py.
pub mod Order
use autoedge_licensing_serve.Prelude.{
  ℕ, zero, suc, ◌+◌, ◌-◌, ◌*◌, Bool, true, false, not, ◌&&◌, ◌||◌, Option, none, some, List, [],
  ◌∷◌, ◌++◌, map, max, length, filter_by, ltb, ◌==◌, if◌then◌else◌,
}
use autoedge_licensing_serve.Text.{Text, strip, replace_char, split, is_digit, is_truthy, or_empty}

-- `int(digits)` of a text of ASCII digits
unfoldable pub decimal : ℕ → Text → ℕ
decimal acc [] = acc
decimal acc (c ∷ s) = decimal (acc * 10 + (c - b'0')) s

-- a token without a digit counts as 0
unfoldable pub token_number : Text → ℕ
unfolding decimal
token_number token = decimal 0 (filter_by is_digit token)

unfoldable pub parse_version_parts : Option Text → List ℕ
unfolding token_number split strip replace_char
parse_version_parts value =
    if is_truthy value
    then map token_number (split b'.' (replace_char b'-' b'.' (strip (or_empty value))))
    else []

abbrev pub zeros : ℕ → List ℕ
zeros zero = []
zeros (suc n) = 0 ∷ zeros n

-- `parts.extend([0] * (length - len(parts)))`
unfoldable pub padded : ℕ → List ℕ → List ℕ
padded n parts = parts ++ zeros (n - length parts)

-- `left > right` on lists of numbers
unfoldable pub list_gt : List ℕ → List ℕ → Bool
list_gt [] ys = false
list_gt (x ∷ xs) [] = true
list_gt (x ∷ xs) (y ∷ ys) = ltb y x || ((x == y) && list_gt xs ys)

-- `left == right` on lists of numbers
unfoldable pub list_eq : List ℕ → List ℕ → Bool
list_eq [] [] = true
list_eq [] (y ∷ ys) = false
list_eq (x ∷ xs) [] = false
list_eq (x ∷ xs) (y ∷ ys) = (x == y) && list_eq xs ys

unfoldable pub version_is_newer : Option Text → Option Text → Bool
unfolding padded list_gt
version_is_newer available current =
    if not (is_truthy available)
    then false
    else if not (is_truthy current) || not (is_truthy (some (strip (or_empty current))))
    then true
    else (let left = parse_version_parts available in
        let right = parse_version_parts current in
        let n = max (length left) (length right) in list_gt (padded n left) (padded n right))

-- the integers -1, 0 and 1 that `compare_versions` returns
pub data Comparison : Type 0 where
  older same newer : Comparison

-- the end of `compare_versions`
unfoldable pub compare_parts : List ℕ → List ℕ → Comparison
unfolding padded list_gt list_eq
compare_parts left right =
    let n = max (length left) (length right) in
    if list_eq (padded n left) (padded n right)
    then same
    else if list_gt (padded n left) (padded n right)
    then newer
    else older

unfoldable pub compare_versions : Option Text → Option Text → Comparison
compare_versions left right =
    if not (is_truthy left) && not (is_truthy right)
    then same
    else if is_truthy left && not (is_truthy right)
    then newer
    else if is_truthy right && not (is_truthy left)
    then older
    else compare_parts (parse_version_parts left) (parse_version_parts right)

pub data Action : Type 0 where
  update rollback current : Action

abbrev action_of : Comparison → Action
action_of newer = update
action_of older = rollback
action_of same = current

unfoldable pub release_action : Option Text → Option Text → Action
release_action target installed = action_of (compare_versions target installed)

abbrev unless_silent : Bool → Action → Action
unless_silent silent rollback = if silent then current else rollback
unless_silent silent action = action

-- A release that is neither required nor explained is not rolled back to.
unfoldable pub release_action_for_row : Option Text → Option Text → Bool → Option Text → Action
unfolding release_action
release_action_for_row version rollback_reason is_required installed =
    unless_silent (not (is_truthy rollback_reason) && not is_required)
      (release_action version installed)
