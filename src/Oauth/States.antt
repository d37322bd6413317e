-- ===== src/Oauth/States.antt =====
-- The rows of tradovate_oauth_states: `_tradovate_oauth_state`, `_tradovate_oauth_session`,
-- `_cleanup_tradovate_oauth_states`, `_expire_tradovate_oauth_row_if_needed`,
-- `_tradovate_oauth_status_message` and `_tradovate_token_expires_at` of
-- autoedge_licensing/service.py, and `first_text`. The values of a response are texts; a number is
-- given by its text.
use autoedge_licensing_serve.Prelude.{
  ◌+◌, ◌-◌, ◌*◌, Bool, true, false, not, ◌&&◌, ◌||◌, Option, none, some, List, [], ◌∷◌, ◌or◌, find,
  filter_by, update_where, leb, ltb, if◌then◌else◌,
}
use autoedge_licensing_serve.Text.{
  Text, text, same_text, same_optional, strip, is_truthy, ◌or_text◌, or_empty,
}
use autoedge_licensing_serve.Time.{Datetime, Stamp, iso, days, seconds, second, parse_stamp}
use autoedge_licensing_serve.Database.{
  Database, OauthStatus, OauthState, pending, authorized, failed, expired, Value, null, string,
}
use autoedge_licensing_serve.Admin.{parse_time}
use autoedge_licensing_serve.Security.Webhook.Verify.{Integer, int_of_text}

-- a parsed JSON object, and `data.get(key)`
abbrev pub Fields : Type 0
Fields = List (Text × Text)

unfoldable pub field : Fields → Text → Option Text
unfolding same_text
field [] key = none
field ((name, value) ∷ fields) key = if same_text name key then some value else field fields key

unfoldable pub first_text : Fields → List Text → Option Text
unfolding field strip
first_text fields [] = none
first_text fields (key ∷ keys) =
    if is_truthy (some (strip (or_empty (field fields key))))
    then some (strip (or_empty (field fields key)))
    else first_text fields keys

-- the values of an audit row
abbrev pub text_value : Option Text → Value
text_value none = null
text_value (some s) = string s

abbrev pub stamp_value : (Stamp → Text) → Option Stamp → Value
stamp_value iso_text none = null
stamp_value iso_text (some s) = string (iso_text s)

abbrev pub has_state : Text → OauthState → Bool
has_state state_hash row = same_text row.state_hash state_hash

-- a NULL column equals nothing
abbrev pub has_session : Text → OauthState → Bool
has_session session_hash row = same_optional row.oauth_session_hash (some session_hash)

abbrev pub oauth_state : Database → Text → Option OauthState
oauth_state db state_hash = find (has_state state_hash) db.tradovate_oauth_states

abbrev pub oauth_session : Database → Text → Option OauthState
oauth_session db session_hash = find (has_session session_hash) db.tradovate_oauth_states

-- UPDATE tradovate_oauth_states SET … WHERE state_hash = ?
abbrev pub update_state : Text → (OauthState → OauthState) → Database → Database
update_state state_hash change db = record db {
  tradovate_oauth_states = update_where (has_state state_hash) change db.tradovate_oauth_states;
}

abbrev pub with_expired : Datetime → OauthState → OauthState
with_expired now row = record row {
  status = expired;
  completed_at = row.completed_at or some (iso now);
}

abbrev pub is_pending : OauthStatus → Bool
is_pending pending = true
is_pending authorized = false
is_pending failed = false
is_pending expired = false

abbrev pub is_authorized : OauthStatus → Bool
is_authorized pending = false
is_authorized authorized = true
is_authorized failed = false
is_authorized expired = false

abbrev pub is_lapsed : Datetime → OauthState → Bool
is_lapsed now row = is_pending row.status && leb row.state_expires_at (iso now)

abbrev pub is_old : Datetime → OauthState → Bool
is_old now row = not (is_authorized row.status) && ltb row.created_at (iso (now - days 7))

unfoldable pub cleanup_oauth_states : Datetime → Database → Database
cleanup_oauth_states now db = record db {
  tradovate_oauth_states =
      filter_by (λ row. not (is_old now row))
        (update_where (is_lapsed now) (with_expired now) db.tradovate_oauth_states);
}

abbrev pub is_past : Option Datetime → Datetime → Bool
is_past none now = false
is_past (some t) now = leb t now

abbrev pub is_due : Datetime → OauthState → Bool
is_due now row =
    (is_pending row.status && leb (row.state_expires_at * second) now)
    || (is_authorized row.status && is_past (parse_stamp row.token_expires_at) now)

-- The row that is read back after the UPDATE is the one that was written, by the table's key.
unfoldable pub expire_row_if_needed : Datetime → Database → OauthState → Database × OauthState
expire_row_if_needed now db row =
    if is_due now row
    then (update_state row.state_hash (with_expired now) db, with_expired now row)
    else (db, row)

unfoldable pub status_message : OauthState → Text
status_message row = elim row.status [
  | pending ↦ text "Tradovate OAuth login is pending."
  | authorized ↦ text "Tradovate OAuth authorized."
  | expired ↦ text "Tradovate OAuth login expired."
  | failed ↦ or_empty (row.failure_message or_text some (text "Tradovate OAuth failed."))
]

-- `now + timedelta(seconds=max(0, expires_in))`
abbrev pub expires_in : Datetime → Option Integer → Option Datetime
expires_in now none = none
expires_in now (some (true, n)) = some now
expires_in now (some (false, n)) = some (now + seconds n)

abbrev pub read_int : Option Text → Option Integer
read_int none = none
read_int (some s) = int_of_text s

unfoldable pub token_expires_at : (Text → Option Datetime) → Fields → Datetime → Option Datetime
unfolding parse_time field int_of_text
token_expires_at from_iso token_response now =
    parse_time from_iso (field token_response (text "expirationTime"))
    or parse_time from_iso (field token_response (text "expires_at"))
    or expires_in now (read_int (field token_response (text "expires_in")))
