-- ===== src/Tags/Distinct.antt =====
-- What a normalised list of tags or identifiers holds.
use autoedge_licensing_serve.Prelude.{
  ◌≡◌, Bool, true, false, not, ◌&&◌, Option, none, some, List, [], ◌∷◌, arith, All, Bool-cases, inl,
  inr, any, if◌then◌else◌,
}
use autoedge_licensing_serve.Text.{Text, same_text, is_truthy, lower, strip}
use autoedge_licensing_serve.Text.Laws.{same_text_self, eq_of_same_text}
use autoedge_licensing_serve.Tags.{
  Values, raw_values, normalize_tag, distinct_from, normalize_tag_list, normalize_identifier_list,
}

-- no text twice, and none empty
abbrev pub AreDistinct : List Text → Type 0
AreDistinct [] = Unit
AreDistinct (s ∷ texts) =
    (is_truthy (some s) ≡ true) × All (λ t. same_text t s ≡ false) texts × AreDistinct texts

avoids :
    (s : Text) (f : Text → Text) (seen values : List Text)
    → any (same_text s) seen ≡ true
    → All (λ t. same_text t s ≡ false) (distinct_from f seen values)
unfolding distinct_from
avoids s f seen [] h = tt
avoids s f seen (raw ∷ values) h =
    elim (Bool-cases (is_truthy (some (f raw)) && not (any (same_text (f raw)) seen))) [
      | inl new ↦ rw new (apart new, avoids s f (f raw ∷ seen) values (ground (arith, h)))
      | inr old ↦ rw old (avoids s f seen values h)
    ]
  where
    apart :
        (is_truthy (some (f raw)) && not (any (same_text (f raw)) seen)) ≡ true
        → same_text (f raw) s ≡ false
    apart new = elim (Bool-cases (same_text (f raw) s)) [
      | inr other ↦ other
      | inl same ↦
          let q : f raw ≡ s = eq_of_same_text (f raw) s same in ground (arith, rw q at new, h)
    ]

distinct_from-AreDistinct :
    (f : Text → Text) (seen values : List Text) → AreDistinct (distinct_from f seen values)
unfolding distinct_from
distinct_from-AreDistinct f seen [] = tt
distinct_from-AreDistinct f seen (raw ∷ values) =
    elim (Bool-cases (is_truthy (some (f raw)) && not (any (same_text (f raw)) seen))) [
      | inl new ↦ rw new (
        ground arith,
        avoids (f raw) f (f raw ∷ seen) values (ground (arith, same_text_self (f raw))),
        distinct_from-AreDistinct f (f raw ∷ seen) values,
      )
      | inr old ↦ rw old (distinct_from-AreDistinct f seen values)
    ]

-- A list of tags, and a list of identifiers, has no empty text and no text twice.
pub normalized-AreDistinct :
    (values : Option Values) (lowered : Bool)
    → AreDistinct (normalize_tag_list values)
      × AreDistinct (normalize_identifier_list values lowered)
unfolding normalize_tag_list normalize_identifier_list
normalized-AreDistinct none lowered = (tt, tt)
normalized-AreDistinct (some values) lowered = (
  distinct_from-AreDistinct (λ raw. normalize_tag (some raw)) [] (raw_values values),
  distinct_from-AreDistinct (λ raw. if lowered then lower (strip raw) else strip raw) []
      (raw_values values),
)
