-- ===== src/Oauth/Steps/Callbacks.antt =====
-- The browser's return moves logins along their life.
use autoedge_licensing_serve.Prelude.{
  ◌≡◌, refl, subst, true, Option, none, some, update_where, Bool-cases, Option-cases, inl, inr,
}
use autoedge_licensing_serve.Text.{Text, text}
use autoedge_licensing_serve.Time.{Datetime}
use autoedge_licensing_serve.Database.{Platform, Database, audit, OauthState}
use autoedge_licensing_serve.License.Customers.{normalize_optional_text}
use autoedge_licensing_serve.Security.Primitives.{Primitives}
use autoedge_licensing_serve.Text.Laws.{eq_of_same_text}
use autoedge_licensing_serve.Database.Unique.{found-passes}
use autoedge_licensing_serve.Oauth.States.{
  Fields, field, oauth_state, has_state, expire_row_if_needed, is_pending, is_due,
}
use autoedge_licensing_serve.Oauth.Callback.{
  Drawn, callback_context, context_found, fail_tradovate_oauth, fail_found, with_failed,
  authorize_tradovate_oauth, authorize_found, store_tokens, with_authorized, is_blank,
}
use autoedge_licensing_serve.Oauth.Evolution.{FollowAll, FollowAll-refl, fail}
use autoedge_licensing_serve.Oauth.Steps.{
  HasStateKey, update-FollowAll, expire-FollowAll, every-FollowAll, pending_moves,
}

module _ (p : Platform) where
  pub failed-FollowAll :
      (now : Datetime) (state : Text) (code message ip : Option Text) (db : Database)
      → FollowAll db.tradovate_oauth_states
          (fail_tradovate_oauth p now state code message ip db).0.tradovate_oauth_states
  unfolding fail_tradovate_oauth
  failed-FollowAll now state code message ip db = found (oauth_state db (p.sha256_hex state)) _ _
    where
      found :
          (o : Option OauthState) (c m : Text)
          → FollowAll db.tradovate_oauth_states
              (fail_found p now (p.sha256_hex state) c m ip db o).0.tradovate_oauth_states
      found none c m = FollowAll-refl db.tradovate_oauth_states
      found (some row) c m =
          every-FollowAll (has_state (p.sha256_hex state)) (with_failed p now c m)
            db.tradovate_oauth_states
            (λ r. record {
              same_key = refl;
              same_customer = refl;
              same_device = refl;
              same_environment = refl;
              same_deadline = refl;
              move = fail;
              token = inl refl;
            })

  pub callback-FollowAll :
      (now : Datetime) (state : Text) (db : Database)
      → HasStateKey db.tradovate_oauth_states
      → FollowAll db.tradovate_oauth_states
          (callback_context p now state db).0.tradovate_oauth_states
  unfolding callback_context
  callback-FollowAll now state db key = elim (Bool-cases (is_blank state)) [
    | inl e ↦ rw e (FollowAll-refl db.tradovate_oauth_states)
    | inr e ↦ rw e (found (oauth_state db (p.sha256_hex state)) refl)
  ]
    where
      found :
          (o : Option OauthState)
          → oauth_state db (p.sha256_hex state) ≡ o
          → FollowAll db.tradovate_oauth_states (context_found p now db o).0.tradovate_oauth_states
      found none e = FollowAll-refl db.tradovate_oauth_states
      found (some row) e = expire-FollowAll now (has_state (p.sha256_hex state)) db key e

  module _ (prims : Primitives) (from_iso : Text → Option Datetime) (token_secret : Text)
      (tokens me : Fields) (now : Datetime) (state : Text) (drawn : Drawn) (ip : Option Text)
      (db : Database) (key : HasStateKey db.tradovate_oauth_states) where
    -- the UPDATE of a pending login that is not past its deadline
    stored-FollowAll :
        {row : OauthState}
        → oauth_state db (p.sha256_hex state) ≡ some row
        → is_pending row.status ≡ true
        → (session access refresh : Option (Option Text))
        → FollowAll db.tradovate_oauth_states
            (store_tokens p prims from_iso token_secret tokens me now db db
              (p.sha256_hex state)
              drawn.session_id
              ip
              row
              session
              access
              refresh).0.tradovate_oauth_states
    unfolding with_authorized audit
    stored-FollowAll found is_open none access refresh = FollowAll-refl db.tradovate_oauth_states
    stored-FollowAll found is_open (some session) none refresh =
        FollowAll-refl db.tradovate_oauth_states
    stored-FollowAll found is_open (some session) (some access) none =
        FollowAll-refl db.tradovate_oauth_states
    stored-FollowAll {row} found is_open (some session) (some access) (some refresh) =
        let own : row.state_hash ≡ p.sha256_hex state =
          eq_of_same_text _ _ (found-passes (has_state (p.sha256_hex state)) _ found) in
        let f =
          with_authorized p prims from_iso token_secret tokens me now
            (p.sha256_hex drawn.session_id) session access refresh in
        let moves = pending_moves row.status is_open in
        subst
          (λ (h : Text).
            FollowAll db.tradovate_oauth_states
              (update_where (has_state h) f db.tradovate_oauth_states))
          own
          (update-FollowAll (has_state (p.sha256_hex state)) f db.tradovate_oauth_states key found
            (record {
              same_key = refl;
              same_customer = refl;
              same_device = refl;
              same_environment = refl;
              same_deadline = refl;
              move = moves.0;
              token = inr moves.1;
            }))

    authorized-FollowAll :
        (access_token : Text) (o : Option OauthState)
        → oauth_state db (p.sha256_hex state) ≡ o
        → FollowAll db.tradovate_oauth_states
            (authorize_found p prims from_iso token_secret tokens me now state drawn ip db
              access_token o).0.tradovate_oauth_states
    authorized-FollowAll access_token none found = FollowAll-refl db.tradovate_oauth_states
    authorized-FollowAll access_token (some row) found = elim (Bool-cases (is_due now row)) [
      | inl due ↦
          let expired = expire-FollowAll now (has_state (p.sha256_hex state)) db key found in
          unfold expire_row_if_needed in
          (rw due (unfold expire_row_if_needed in (rw due at expired)))
      | inr not_due ↦ elim (Bool-cases (is_pending row.status)) [
        | inl is_open ↦
            unfold expire_row_if_needed in
            rw not_due (simp is_open (stored-FollowAll found is_open _ _ _))
        | inr not_open ↦
            unfold expire_row_if_needed in
            rw not_due (simp not_open (FollowAll-refl db.tradovate_oauth_states))
      ]
    ]

    pub authorize-FollowAll :
        FollowAll db.tradovate_oauth_states
          (authorize_tradovate_oauth p prims from_iso token_secret tokens me now state drawn ip
            db).0.tradovate_oauth_states
    unfolding authorize_tradovate_oauth
    authorize-FollowAll =
        elim (Option-cases (normalize_optional_text (field tokens (text "access_token")))) [
          | inl e ↦ rw e (
              failed-FollowAll now state (some (text "missing_access_token"))
                (some (text "Tradovate did not return an access token.")) ip db)
          | inr (access_token, e) ↦
              rw e (authorized-FollowAll access_token (oauth_state db (p.sha256_hex state)) refl)
        ]
