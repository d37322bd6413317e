-- ===== src/Oauth/Steps/Contexts.antt =====
-- The client's calls move logins along their life.
use autoedge_licensing_serve.Prelude.{
  ◌≡◌, refl, subst, Bool, true, false, not, ◌||◌, Option, none, some, List, [], ◌∷◌, find,
  Bool-cases, inl, inr,
}
use autoedge_licensing_serve.Text.{Text, is_truthy, or_empty, same_optional}
use autoedge_licensing_serve.Time.{Datetime}
use autoedge_licensing_serve.Database.{Platform, Database, OauthStatus, OauthState}
use autoedge_licensing_serve.Security.Primitives.{Primitives}
use autoedge_licensing_serve.Oauth.States.{has_state, has_session, is_authorized}
use autoedge_licensing_serve.Oauth.Callback.{is_blank}
use autoedge_licensing_serve.Oauth.Context.{
  SessionDraw, oauth_session_id, session_read, store_session, claimed, granted, token_read,
  claim_row, claim_found, claim_or_refresh_context, lacks_session, with_session,
}
use autoedge_licensing_serve.Oauth.Evolution.{
  Follows, FollowAll, FollowAll-refl, FollowAll-trans, Move, stay,
}
use autoedge_licensing_serve.Oauth.Steps.{HasStateKey, expire-FollowAll, every-FollowAll}

-- the logins, where nothing was raised
abbrev pub KeepsLogins : List OauthState → Option (Database × Text) → Type 0
KeepsLogins before none = Unit
KeepsLogins before (some (db, id)) = FollowAll before db.tradovate_oauth_states

-- what an UPDATE of the session or of the claim changes
unchanged :
    (r s : OauthState)
    → r.state_hash ≡ s.state_hash
    → r.customer_id ≡ s.customer_id
    → r.device_id ≡ s.device_id
    → r.environment ≡ s.environment
    → r.state_expires_at ≡ s.state_expires_at
    → r.status ≡ s.status
    → r.access_token_encrypted ≡ s.access_token_encrypted
    → Follows r s
unchanged r s a b c d e f g = record {
  same_key = a;
  same_customer = b;
  same_device = c;
  same_environment = d;
  same_deadline = e;
  move = subst (λ (x : OauthStatus). Move r.status x) f stay;
  token = inl g;
}

module _ (p : Platform) (prims : Primitives) (token_secret : Text) (draw : SessionDraw)
    (before : List OauthState) where
  stored-KeepsLogins :
      (db : Database) (row : OauthState) (o : Option (Option Text))
      → FollowAll before db.tradovate_oauth_states
      → KeepsLogins before (store_session p prims token_secret draw db row o)
  stored-KeepsLogins db row none f = tt
  stored-KeepsLogins db row (some encrypted) f =
      FollowAll-trans before db.tradovate_oauth_states _ f (
        every-FollowAll (lacks_session row.state_hash)
          (with_session (p.sha256_hex draw.session_id) encrypted) db.tradovate_oauth_states
          (λ r. unchanged r _ refl refl refl refl refl refl refl))

  read-KeepsLogins :
      (db : Database) (row : OauthState) (o : Option (Option Text))
      → FollowAll before db.tradovate_oauth_states
      → KeepsLogins before (session_read p prims token_secret draw db row o)
  read-KeepsLogins db row none f = tt
  read-KeepsLogins db row (some none) f = stored-KeepsLogins db row _ f
  read-KeepsLogins db row (some (some [])) f = stored-KeepsLogins db row _ f
  read-KeepsLogins db row (some (some (c ∷ s))) f = f

  pub session-KeepsLogins :
      (db : Database) (row : OauthState)
      → FollowAll before db.tradovate_oauth_states
      → KeepsLogins before (oauth_session_id p prims token_secret draw db row)
  unfolding oauth_session_id
  session-KeepsLogins db row f = read-KeepsLogins db row _ f

module _ (p : Platform) (prims : Primitives) (token_secret : Text) (draw : SessionDraw)
    (now : Datetime) (customer_id device_id : Text) (mark_claimed : Bool) (before : Database) where
  granted-FollowAll :
      (row : OauthState) (access_token : Option Text) (o : Option (Database × Text))
      → KeepsLogins before.tradovate_oauth_states o
      → FollowAll before.tradovate_oauth_states
          (granted p prims token_secret draw now customer_id device_id mark_claimed before row
            access_token o).0.tradovate_oauth_states
  granted-FollowAll row access_token none k = FollowAll-refl before.tradovate_oauth_states
  granted-FollowAll row access_token (some (db, id)) k =
      elim (Bool-cases (is_truthy access_token)) [
        | inl given ↦ rw given (marked mark_claimed)
        | inr missing ↦ rw missing k
      ]
    where
      marked :
          (mark : Bool)
          → FollowAll before.tradovate_oauth_states
              (claimed p prims token_secret draw now customer_id device_id mark db
                row).tradovate_oauth_states
      marked false = k
      marked true = FollowAll-trans before.tradovate_oauth_states db.tradovate_oauth_states _ k (
          every-FollowAll (has_state row.state_hash) _ db.tradovate_oauth_states
            (λ r. unchanged r _ refl refl refl refl refl refl refl))

  token-FollowAll :
      (db : Database) (row : OauthState) (o : Option (Option Text))
      → FollowAll before.tradovate_oauth_states db.tradovate_oauth_states
      → FollowAll before.tradovate_oauth_states
          (token_read p prims token_secret draw now customer_id device_id mark_claimed before db row
            o).0.tradovate_oauth_states
  token-FollowAll db row none f = FollowAll-refl before.tradovate_oauth_states
  token-FollowAll db row (some access_token) f =
      granted-FollowAll row access_token _
        (session-KeepsLogins p prims token_secret draw before.tradovate_oauth_states db row f)

  row-FollowAll :
      (db : Database) (row : OauthState)
      → FollowAll before.tradovate_oauth_states db.tradovate_oauth_states
      → FollowAll before.tradovate_oauth_states
          (claim_row p prims token_secret draw now customer_id device_id mark_claimed before
            (db, row)).0.tradovate_oauth_states
  row-FollowAll db row f =
      elim (Bool-cases (
        not (same_optional row.customer_id (some customer_id))
        || not (same_optional row.device_id (some device_id)))) [
          | inl other ↦ rw other f
          | inr own ↦ elim (Bool-cases (is_authorized row.status)) [
            | inl open' ↦ rw own (simp open' (token-FollowAll db row _ f))
            | inr shut ↦ rw own (simp shut f)
          ]
        ]

  found-FollowAll :
      (test : OauthState → Bool) (by_session : Bool) (o : Option OauthState)
      → HasStateKey before.tradovate_oauth_states
      → find test before.tradovate_oauth_states ≡ o
      → FollowAll before.tradovate_oauth_states
          (claim_found p prims token_secret draw now customer_id device_id mark_claimed by_session
            before o).0.tradovate_oauth_states
  found-FollowAll test by_session none key found = FollowAll-refl before.tradovate_oauth_states
  found-FollowAll test by_session (some row) key found =
      row-FollowAll _ _ (expire-FollowAll now test before key found)

  pub claim-FollowAll :
      (state : Text) (session : Option Text)
      → HasStateKey before.tradovate_oauth_states
      → FollowAll before.tradovate_oauth_states
          (claim_or_refresh_context p prims token_secret draw now customer_id device_id mark_claimed
            state session before).0.tradovate_oauth_states
  unfolding claim_or_refresh_context
  claim-FollowAll state session key = elim (Bool-cases (is_blank (or_empty session))) [
    | inl blank ↦ elim (Bool-cases (is_blank state)) [
      | inl none_given ↦ rw (blank, none_given) (FollowAll-refl before.tradovate_oauth_states)
      | inr by_state ↦
          rw (blank, by_state) (found-FollowAll (has_state (p.sha256_hex state)) false _ key refl)
    ]
    | inr by_session ↦
        rw by_session
          (found-FollowAll (has_session (p.sha256_hex (or_empty session))) true _ key refl)
  ]
