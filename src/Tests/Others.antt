-- ===== src/Tests/Others.antt =====
-- Tests of versions, times, tags and releases.
use autoedge_licensing_serve.Prelude.{
  ◌≤◌, ◌≡◌, ◌≢◌, ◌⊎◌, refl, true, false, none, some, [], ◌∷◌, All, arith,
}
use autoedge_licensing_serve.Text.{text, same_text, strip, strip_left, colon_joined}
use autoedge_licensing_serve.Version.{compare_versions, parse_version_parts}
use autoedge_licensing_serve.Version.Order.{
  compare_numbers, compare_versions-eq-compare_numbers, compare_versions_trans, NotNewer,
}
use autoedge_licensing_serve.Tags.{written, normalize_tag_list, normalize_identifier_list}
use autoedge_licensing_serve.Tags.Distinct.{AreDistinct, normalized-AreDistinct}
use autoedge_licensing_serve.Release.{
  Release, disabled, mode_of, required_tags, rollout_bucket, channel_priority, normalized_channel,
  is_targeted, release_visible_to_customer, select_visible_releases,
}
use autoedge_licensing_serve.Release.Visible.{
  rollout_monotone, untagged_visible, select_visible_lem,
}
use autoedge_licensing_serve.Tests.{platform, customer}

program : Unit {0}
unfolding compare_versions strip strip_left release_visible_to_customer normalized_channel same_text
    colon_joined mode_of required_tags rollout_bucket channel_priority
program = tt

compare_versions-eq-compare_numbers_example :
    compare_versions (some (text "1.10")) (some (text "1.9.0"))
    ≡ compare_numbers
        (parse_version_parts (some (text "1.10")))
        (parse_version_parts (some (text "1.9.0")))
compare_versions-eq-compare_numbers_example =
    compare_versions-eq-compare_numbers (some (text "1.10")) (some (text "1.9.0")) refl refl

compare_versions_trans_example : NotNewer (compare_versions none (some (text "2")))
unfolding program
compare_versions_trans_example = compare_versions_trans none (some []) (some (text "2")) tt tt

normalized-AreDistinct_example :
    AreDistinct (normalize_tag_list (some (written (text "Beta, beta; ,VIP"))))
    × AreDistinct (normalize_identifier_list (some (written (text "Beta, beta; ,VIP"))) true)
normalized-AreDistinct_example =
    normalized-AreDistinct (some (written (text "Beta, beta; ,VIP"))) true

abbrev release : Release
release = record {
  id = text "r1";
  product_id = some (text "p1");
  product_key = none;
  channel = some (text "stable");
  version = some (text "1.2");
  is_required = false;
  created_at = 1;
  updated_at = 1;
  audience_mode = some (text "percent");
  required_tags = [];
  allowed_customer_ids = [];
  allowed_emails = [];
  allowed_license_key_hashes = [];
  rollout_percent = some 99;
}

seen : (release_visible_to_customer platform release customer none).0 ≡ true
unfolding program
seen = refl

rollout_monotone_example :
    (release_visible_to_customer platform
      (record release { rollout_percent = some 100 })
      customer
      none).0
    ≡ true
rollout_monotone_example =
    rollout_monotone platform release customer none 100 refl (omega arith) seen

untagged_visible_example :
    ((channel_priority (normalized_channel release.channel)
        ≤ channel_priority (normalized_channel none))
      ⊎ (is_targeted (mode_of release) ≡ true))
    × (mode_of release ≢ disabled)
untagged_visible_example = untagged_visible platform release customer none refl seen

select_visible_lem_example :
    All
      (λ r. (release_visible_to_customer platform r customer none).0 ≡ true)
      (select_visible_releases platform customer none
        (λ r. r.product_id)
        (release ∷ record release { id = text "r2"; channel = some (text "beta") } ∷ [])).0
select_visible_lem_example =
    select_visible_lem platform customer none (λ r. r.product_id)
      (release ∷ record release { id = text "r2"; channel = some (text "beta") } ∷ [])
