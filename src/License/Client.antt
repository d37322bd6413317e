-- ===== src/License/Client.antt =====
-- The kinds of clients: `normalize_client_type` of autoedge_licensing/service.py.
use autoedge_licensing_serve.Prelude.{Option, if◌then◌else◌}
use autoedge_licensing_serve.Text.{
  Text, text, strip, lower, replace_char, same_text, is_truthy, or_empty,
}

pub data ClientType : Type 0 where
  trader_desktop nt8 unknown : ClientType

abbrev pub client_text : ClientType → Text
client_text trader_desktop = text "trader_desktop"
client_text nt8 = text "nt8"
client_text unknown = text "unknown"

abbrev client_of : Text → ClientType
client_of cleaned =
    if same_text cleaned (text "trader_desktop")
    then trader_desktop
    else if same_text cleaned (text "nt8")
    then nt8
    else unknown

unfoldable pub normalize_client_type : Option Text → ClientType
unfolding strip lower replace_char same_text
normalize_client_type value = client_of (
    replace_char b'-' b'_'
      (lower (strip (if is_truthy value then or_empty value else text "trader_desktop"))))
