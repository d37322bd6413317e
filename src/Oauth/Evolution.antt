-- ===== src/Oauth/Evolution.antt =====
-- The life of a login: pending, then authorized, then expired or failed, and never back. The steps
-- that a table of logins may take, as a relation.
use autoedge_licensing_serve.Prelude.{
  ◌≡◌, ◌≢◌, ◌⊎◌, refl, Bool, true, false, List, [], ◌∷◌, ◌++◌, Bool-cases, inl, inr, filter_by, ltb,
  if◌then◌else◌, update_where, All, ◌∙◌,
}
use autoedge_licensing_serve.Time.{Stamp}
use autoedge_licensing_serve.Database.{
  OauthStatus, OauthState, pending, authorized, failed, expired,
}

-- The moves of a login's status.
pub data Move : OauthStatus → OauthStatus → Type 0 where
  stay : {s : OauthStatus} → Move s s
  grant : Move pending authorized
  lapse : Move pending expired
  end : Move authorized expired
  fail : {s : OauthStatus} → Move s failed

abbrev pub IsOpen : OauthStatus → Type 0
IsOpen pending = Unit
IsOpen authorized = Unit
IsOpen failed = ⊥
IsOpen expired = ⊥

-- One row after another state of it: the key, the account that it is bound to and its deadline are
-- the same, the status makes a move, and an expired or failed login gets no access token.
pub record Follows (r s : OauthState) : Type 0 where
  pub same_key : r.state_hash ≡ s.state_hash
  pub same_customer : r.customer_id ≡ s.customer_id
  pub same_device : r.device_id ≡ s.device_id
  pub same_environment : r.environment ≡ s.environment
  pub same_deadline : r.state_expires_at ≡ s.state_expires_at
  pub move : Move r.status s.status
  pub token : (r.access_token_encrypted ≡ s.access_token_encrypted) ⊎ IsOpen r.status

pub Follows-refl : (r : OauthState) → Follows r r
Follows-refl r = record {
  same_key = refl;
  same_customer = refl;
  same_device = refl;
  same_environment = refl;
  same_deadline = refl;
  move = stay;
  token = inl refl;
}

Move-trans : {a b c : OauthStatus} → Move a b → Move b c → Move a c
Move-trans stay n = n
Move-trans grant stay = grant
Move-trans grant end = lapse
Move-trans grant fail = fail
Move-trans lapse stay = lapse
Move-trans lapse fail = fail
Move-trans end stay = end
Move-trans end fail = fail
Move-trans fail stay = fail
Move-trans fail fail = fail

Move-IsOpen : {a b : OauthStatus} → Move a b → IsOpen b → IsOpen a
Move-IsOpen stay o = o
Move-IsOpen grant o = tt
Move-IsOpen lapse o = absurd o
Move-IsOpen end o = absurd o
Move-IsOpen fail o = absurd o

pub Follows-trans : {r s t : OauthState} → Follows r s → Follows s t → Follows r t
Follows-trans f g = record {
  same_key = f.same_key ∙ g.same_key;
  same_customer = f.same_customer ∙ g.same_customer;
  same_device = f.same_device ∙ g.same_device;
  same_environment = f.same_environment ∙ g.same_environment;
  same_deadline = f.same_deadline ∙ g.same_deadline;
  move = Move-trans f.move g.move;
  token = elim f.token [
    | inr o ↦ inr o
    | inl e ↦ elim g.token [ inl e' ↦ inl (e ∙ e') | inr o ↦ inr (Move-IsOpen f.move o) ]
  ];
}

-- Every row follows the one in its place.
abbrev pub FollowAll : List OauthState → List OauthState → Type 0
FollowAll [] [] = Unit
FollowAll [] (s ∷ rows') = ⊥
FollowAll (r ∷ rows) [] = ⊥
FollowAll (r ∷ rows) (s ∷ rows') = Follows r s × FollowAll rows rows'

pub FollowAll-refl : (rows : List OauthState) → FollowAll rows rows
FollowAll-refl [] = tt
FollowAll-refl (r ∷ rows) = (Follows-refl r, FollowAll-refl rows)

pub FollowAll-trans :
    (as' bs cs : List OauthState) → FollowAll as' bs → FollowAll bs cs → FollowAll as' cs
FollowAll-trans [] [] [] f g = tt
FollowAll-trans [] [] (c ∷ cs) f g = absurd g
FollowAll-trans [] (b ∷ bs) cs f g = absurd f
FollowAll-trans (a ∷ as') [] cs f g = absurd f
FollowAll-trans (a ∷ as') (b ∷ bs) [] f g = absurd g
FollowAll-trans (a ∷ as') (b ∷ bs) (c ∷ cs) f g =
    (Follows-trans f.0 g.0, FollowAll-trans as' bs cs f.1 g.1)

pub FollowAll-update :
    (test : OauthState → Bool) (f : OauthState → OauthState) (rows : List OauthState)
    → All (λ r. test r ≡ true → Follows r (f r)) rows
    → FollowAll rows (update_where test f rows)
FollowAll-update test f [] a = tt
FollowAll-update test f (r ∷ rows) a = elim (Bool-cases (test r)) [
  | inl e ↦ rw e (a.0 e, FollowAll-update test f rows a.1)
  | inr e ↦ rw e (Follows-refl r, FollowAll-update test f rows a.1)
]

-- a row that a call may delete: not authorized, and made before that time
abbrev pub IsStale : Stamp → OauthState → Type 0
IsStale before r = (r.status ≢ authorized) × (ltb r.created_at before ≡ true)

-- a row that may be added
abbrev pub IsStarted : OauthState → Type 0
IsStarted r = r.status ≡ pending

-- A table after one call: rows follow, rows that were not authorized and were made before that time
-- may be gone, and new rows stand behind them and are pending.
pub data Evolves (before : Stamp) : List OauthState → List OauthState → Type 0 where
  added : {rows : List OauthState} → All IsStarted rows → Evolves before [] rows
  kept :
      {r s : OauthState} {rows rows' : List OauthState}
      → Follows r s
      → Evolves before rows rows'
      → Evolves before (r ∷ rows) (s ∷ rows')
  dropped :
      {r : OauthState} {rows rows' : List OauthState}
      → IsStale before r
      → Evolves before rows rows'
      → Evolves before (r ∷ rows) rows'

pub Evolves-refl : (before : Stamp) (rows : List OauthState) → Evolves before rows rows
Evolves-refl before [] = added tt
Evolves-refl before (r ∷ rows) = kept (Follows-refl r) (Evolves-refl before rows)

pub FollowAll-Evolves :
    (before : Stamp) (rows rows' : List OauthState)
    → FollowAll rows rows'
    → Evolves before rows rows'
FollowAll-Evolves before [] [] f = added tt
FollowAll-Evolves before [] (s ∷ rows') f = absurd f
FollowAll-Evolves before (r ∷ rows) [] f = absurd f
FollowAll-Evolves before (r ∷ rows) (s ∷ rows') f =
    kept f.0 (FollowAll-Evolves before rows rows' f.1)

-- an UPDATE, a DELETE and an INSERT: the rows that go, changed or not, are stale
pub Evolves-delete :
    (before : Stamp) (test keep : OauthState → Bool) (f : OauthState → OauthState)
    (started : List OauthState)
    → ((r : OauthState) → test r ≡ true → Follows r (f r))
    → ((r : OauthState) → keep (if test r then f r else r) ≡ false → IsStale before r)
    → All IsStarted started
    → (rows : List OauthState)
    → Evolves before rows (filter_by keep (update_where test f rows) ++ started)
Evolves-delete before test keep f started follows stale a [] = added a
Evolves-delete before test keep f started follows stale a (r ∷ rows) =
    elim (Bool-cases (keep (if test r then f r else r))) [
      | inr e ↦
          rw e
            (dropped (stale r e) (Evolves-delete before test keep f started follows stale a rows))
      | inl e ↦ rw e (
          kept (moved (Bool-cases (test r)))
            (Evolves-delete before test keep f started follows stale a rows))
    ]
  where
    moved : (test r ≡ true) ⊎ (test r ≡ false) → Follows r (if test r then f r else r)
    moved (inl e) = rw e (follows r e)
    moved (inr e) = rw e (Follows-refl r)
