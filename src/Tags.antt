-- ===== src/Tags.antt =====
-- `normalize_tag`, `normalize_tag_list`, `normalize_identifier_list` and `clamp_rollout_percent`
-- of autoedge_licensing/service.py.
pub mod Distinct
use autoedge_licensing_serve.Prelude.{
  ℕ, Bool, true, false, not, ◌&&◌, ◌||◌, Option, none, some, List, [], ◌∷◌, ◌++◌, leb, ◌==◌, min,
  if◌then◌else◌, map, any, reverse,
}
use autoedge_licensing_serve.Text.{Text, same_text, strip, lower, is_space, is_truthy}

-- `[a-z0-9_.:-]`
abbrev pub is_tag_char : ℕ → Bool
is_tag_char c =
    (leb b'a' c && leb c b'z')
    || (leb b'0' c && leb c b'9')
    || (c == b'_')
    || (c == b'.')
    || (c == b':')
    || (c == b'-')

-- `re.sub(r"[^a-z0-9_.:-]+", "_", s)`; the flag tells that the run before has been replaced
unfoldable pub collapse : Bool → Text → Text
collapse in_run [] = []
collapse in_run (c ∷ s) =
    let rest = collapse (not (is_tag_char c)) s in
    if is_tag_char c then c ∷ rest else if in_run then rest else b'_' ∷ rest

-- `s.strip("_")`
unfoldable pub strip_underscores : Text → Text
strip_underscores [] = []
strip_underscores (c ∷ s) = if c == b'_' then strip_underscores s else c ∷ s

unfoldable pub normalize_tag : Option Text → Text
unfolding collapse strip_underscores strip lower
normalize_tag none = []
normalize_tag (some s) =
    reverse (strip_underscores (reverse (strip_underscores (collapse false (lower (strip s))))))

-- the argument of the two functions that follow: a list, or a text with separators
pub data Values : Type 0 where
  listed : List Text → Values
  written : Text → Values

-- `[\s,;]`
abbrev pub is_separator : ℕ → Bool
is_separator c = is_space c || (c == b',') || (c == b';')

abbrev onto_part : ℕ → List Text → List Text
onto_part c [] = (c ∷ []) ∷ []
onto_part c (part ∷ parts) = (c ∷ part) ∷ parts

-- `re.split(r"[\s,;]+", s)`, up to empty parts, which both functions pass over
unfoldable pub split_values : Text → List Text
split_values [] = [] ∷ []
split_values (c ∷ s) = if is_separator c then [] ∷ split_values s else onto_part c (split_values s)

abbrev pub raw_values : Values → List Text
raw_values (listed values) = values
raw_values (written value) = split_values value

-- the loop over the raw values; `seen` holds the same texts as `normalized`
unfoldable pub distinct_from : (Text → Text) → List Text → List Text → List Text
distinct_from f seen [] = []
distinct_from f seen (raw ∷ values) =
    let value = f raw in
    let is_new = is_truthy (some value) && not (any (same_text value) seen) in
    let rest = distinct_from f (if is_new then value ∷ seen else seen) values in
    if is_new then value ∷ rest else rest

unfoldable pub normalize_tag_list : Option Values → List Text
unfolding distinct_from normalize_tag split_values
normalize_tag_list none = []
normalize_tag_list (some values) =
    distinct_from (λ raw. normalize_tag (some raw)) [] (raw_values values)

unfoldable pub normalize_identifier_list : Option Values → Bool → List Text
unfolding distinct_from split_values strip lower
normalize_identifier_list none lowered = []
normalize_identifier_list (some values) lowered =
    distinct_from (λ raw. if lowered then lower (strip raw) else strip raw) [] (raw_values values)

-- a percentage is not negative here
abbrev pub clamp_rollout_percent : Option ℕ → ℕ
clamp_rollout_percent none = 100
clamp_rollout_percent (some value) = min 100 value
