-- ===== src/Release/Visible.antt =====
-- What the tests on releases let through.
use autoedge_licensing_serve.Prelude.{
  ℕ, min, ◌≤◌, ◌≡◌, ◌≢◌, ◌⊎◌, inl, inr, refl, true, Option, none, some, List, [], ◌∷◌, arith, All,
  All-added, All-replaced, Bool-cases,
}
use autoedge_licensing_serve.Text.{Text}
use autoedge_licensing_serve.Database.{Platform, Customer}
use autoedge_licensing_serve.Release.{
  Release, AudienceMode, disabled, mode_of, channel_priority, normalized_channel, is_targeted,
  channel_match, percent_match, rollout_bucket, required_tags, allowlist_match, audience_match,
  is_internal_for, mode_match, release_audience_match, release_visible_to_customer, sorts_after,
  store_release, select_from, select_visible_releases,
}

percent_monotone :
    (a b bucket : ℕ) → a ≤ b → (percent_match a bucket).0 ≡ true → (percent_match b bucket).0 ≡ true
unfolding percent_match
percent_monotone a b bucket le h = ground arith

abbrev with_percent : ℕ → Release → Release
with_percent q release = record release { rollout_percent = some q }

same_required :
    (release : Release) (q : ℕ) → required_tags (with_percent q release) ≡ required_tags release
unfolding required_tags
same_required release q = refl

same_bucket :
    (p : Platform) (release : Release) (customer : Customer) (q : ℕ)
    → rollout_bucket p (with_percent q release) customer ≡ rollout_bucket p release customer
unfolding rollout_bucket
same_bucket p release customer q = refl

same_mode : (release : Release) (q : ℕ) → mode_of (with_percent q release) ≡ mode_of release
unfolding mode_of
same_mode release q = refl

percent_mode :
    (p : Platform) (release : Release) (customer : Customer) (q : ℕ) {r : ℕ}
    → release.rollout_percent ≡ some r
    → r ≤ q
    → (mode_match p AudienceMode.percent release customer).0 ≡ true
    → (mode_match p AudienceMode.percent (with_percent q release) customer).0 ≡ true
unfolding mode_match
percent_mode p release customer q {r} at le h =
    let more =
      percent_monotone (min 100 r) (min 100 q) (rollout_bucket p release customer) (omega arith) in
    rw (same_required release q, same_bucket p release customer q) (ground (arith, more, h, at))

mode_monotone :
    (p : Platform) (mode : AudienceMode) (release : Release) (customer : Customer) (q : ℕ) {r : ℕ}
    → release.rollout_percent ≡ some r
    → r ≤ q
    → (mode_match p mode release customer).0 ≡ true
    → (mode_match p mode (with_percent q release) customer).0 ≡ true
unfolding mode_match required_tags allowlist_match
mode_monotone p AudienceMode.everyone release customer q at le h = h
mode_monotone p AudienceMode.allowlist release customer q at le h = h
mode_monotone p AudienceMode.roles release customer q at le h = h
mode_monotone p disabled release customer q at le h = h
mode_monotone p AudienceMode.percent release customer q at le h =
    percent_mode p release customer q at le h

audience_monotone :
    (p : Platform) (mode : AudienceMode) (release : Release) (customer : Customer) (q : ℕ) {r : ℕ}
    → release.rollout_percent ≡ some r
    → r ≤ q
    → (audience_match p mode release customer).0 ≡ true
    → (audience_match p mode (with_percent q release) customer).0 ≡ true
unfolding audience_match
audience_monotone p disabled release customer q at le h = h
audience_monotone p mode release customer q at le h =
    elim (Bool-cases (is_internal_for release customer)) [
      | inl internal ↦ rw internal
      | inr other ↦ rw other (mode_monotone p mode release customer q at le (rw other at h))
    ]

-- To raise the percentage that a release has takes it from no customer who saw it.
pub rollout_monotone :
    (p : Platform) (release : Release) (customer : Customer) (requested : Option Text) (q : ℕ)
    {r : ℕ}
    → release.rollout_percent ≡ some r
    → r ≤ q
    → (release_visible_to_customer p release customer requested).0 ≡ true
    → (release_visible_to_customer p (with_percent q release) customer requested).0 ≡ true
unfolding release_visible_to_customer release_audience_match
rollout_monotone p release customer requested q at le h =
    let audience = audience_monotone p (mode_of release) release customer q at le in
    elim (Bool-cases (audience_match p (mode_of release) release customer).0) [
      | inl in' ↦ rw (same_mode release q, audience in') (rw (in') at h)
      | inr out' ↦ cc (rw out' at h)
    ]

-- A customer without tags sees a release only if it is not of a later channel than the one that
-- is asked for, or is offered to a list of customers or roles; and never if the release is
-- disabled.
pub untagged_visible :
    (p : Platform) (release : Release) (customer : Customer) (requested : Option Text)
    → customer.tags ≡ []
    → (release_visible_to_customer p release customer requested).0 ≡ true
    → ((channel_priority (normalized_channel release.channel)
          ≤ channel_priority (normalized_channel requested))
        ⊎ (is_targeted (mode_of release) ≡ true))
      × (mode_of release ≢ disabled)
unfolding release_visible_to_customer release_audience_match channel_match
untagged_visible p release customer requested none' h = (ground arith, ground arith)

module _ (p : Platform) (customer : Customer) (requested : Option Text)
    (group_by : Release → Option Text) where
  abbrev Seen : Release → Type 0
  Seen release = (release_visible_to_customer p release customer requested).0 ≡ true

  All-stored :
      (rows : List Release) (r : Release) (existing : Option Release)
      → All Seen rows
      → Seen r
      → All Seen (store_release p customer requested group_by rows r existing)
  unfolding store_release
  All-stored rows r none a h = All-added Seen rows r a h
  All-stored rows r (some e) a h = elim (Bool-cases (sorts_after r e)) [
    | inl later ↦ rw later (All-replaced Seen _ rows r a h)
    | inr earlier ↦ rw earlier a
  ]

  select_from_lem :
      (releases rows : List Release)
      → All Seen rows
      → All Seen (select_from p customer requested group_by rows releases).0
  unfolding select_from
  select_from_lem [] rows a = a
  select_from_lem (r ∷ releases) rows a =
      elim (Bool-cases (release_visible_to_customer p r customer requested).0) [
        | inl seen ↦ rw seen (select_from_lem releases _ (All-stored rows r _ a seen))
        | inr hidden ↦ rw hidden (select_from_lem releases rows a)
      ]

  -- Every release that is selected is one that the customer may see.
  pub select_visible_lem :
      (releases : List Release)
      → All
          (λ release. (release_visible_to_customer p release customer requested).0 ≡ true)
          (select_visible_releases p customer requested group_by releases).0
  unfolding select_visible_releases
  select_visible_lem releases = select_from_lem releases [] tt
