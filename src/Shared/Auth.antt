-- ===== src/Shared/Auth.antt =====
-- Shared/authprotocol.h: the limits, the checks of names and texts, and the auth packets.
-- `trimmed` stands for Qt's QString::trimmed.
pub mod Checks
pub mod Packets
use messenger_walkie_talkie.Prelude.{
  ℕ, ◌*◌, String, Bool, true, false, not, ◌&&◌, ◌||◌, List, [], ◌∷◌, ltb, leb, eqb, if◌then◌else◌,
  ◌==◌, string_eq, units, size, is_empty,
}
use messenger_walkie_talkie.Prelude.Int.{ℤ, pos, ltb_ℤ}
use messenger_walkie_talkie.Shared.Json.{
  JsonObject, object, str, num, value, to_string, to_long_long,
}

abbrev min_username_length : ℕ
min_username_length = 3

abbrev max_username_length : ℕ
max_username_length = 32

abbrev pub min_password_length : ℕ
min_password_length = 8

abbrev max_message_length : ℕ
max_message_length = 4000

abbrev pub session_lifetime_ms : ℕ
session_lifetime_ms = 7 * 24 * 60 * 60 * 1000

pub record SessionInfo : Type 0 where
  pub token : String
  pub expires_at : ℤ

abbrev pub empty_session : SessionInfo
empty_session = record { token = ""; expires_at = pos 0 }

-- SessionInfo::isValid
unfoldable pub is_valid : SessionInfo → Bool
is_valid s = not (is_empty s.token) && ltb_ℤ (pos 0) s.expires_at

-- One character of a user name.
unfoldable pub is_username_unit : ℕ → Bool
is_username_unit code =
    if ltb 0xFF code
    then false
    else (leb b'0' code && leb code b'9')
      || (leb b'A' code && leb code b'Z')
      || (leb b'a' code && leb code b'z')
      || eqb code b'_'

unfoldable pub all_username_units : List ℕ → Bool
unfolding is_username_unit
all_username_units [] = true
all_username_units (c ∷ cs) = is_username_unit c && all_username_units cs

-- isAsciiUsernameValid
unfoldable pub is_ascii_username_valid : String → Bool
unfolding all_username_units
is_ascii_username_valid username =
    if ltb (size username) min_username_length || ltb max_username_length (size username)
    then false
    else all_username_units (units username)

pub record AuthOk : Type 0 where
  pub accepted : Bool
  pub username : String
  pub session : SessionInfo

-- makeAuthOkPacket
unfoldable pub make_auth_ok_packet : String → SessionInfo → JsonObject
make_auth_ok_packet username session = object (
    ("type", str "auth_ok")
    ∷ ("username", str username)
    ∷ ("session_token", str session.token)
    ∷ ("session_expires_at", num session.expires_at)
    ∷ [])

-- makeSessionInvalidPacket
unfoldable pub make_session_invalid_packet : String → JsonObject
make_session_invalid_packet message =
    object (("type", str "session_invalid") ∷ ("message", str message) ∷ [])

-- makeLogoutPacket
unfoldable pub make_logout_packet : JsonObject
make_logout_packet = object (("type", str "logout") ∷ [])

module _ (trimmed : String → String) where
  -- normalizeUsername
  unfoldable pub normalize_username : String → String
  normalize_username username = trimmed username

  -- isMessageTextValid
  unfoldable pub is_message_text_valid : String → Bool
  is_message_text_valid text =
      not (is_empty (trimmed text)) && leb (size (trimmed text)) max_message_length

  -- isPrivateRecipientValid
  unfoldable pub is_private_recipient_valid : String → String → Bool
  unfolding normalize_username
  is_private_recipient_valid sender recipient =
      not (is_empty (normalize_username sender))
      && not (is_empty (normalize_username recipient))
      && not (normalize_username sender == normalize_username recipient)

  -- parseAuthOkPacket; what it writes through its references comes back beside its result.
  unfoldable pub parse_auth_ok_packet : JsonObject → String → SessionInfo → AuthOk
  unfolding normalize_username is_valid
  parse_auth_ok_packet packet username session =
      if not (to_string (value packet "type") == "auth_ok")
      then record { accepted = false; username = username; session = session }
      else let name = normalize_username (to_string (value packet "username")) in
        let info : SessionInfo = record {
          token = to_string (value packet "session_token");
          expires_at = to_long_long (value packet "session_expires_at");
        } in
        record { accepted = not (is_empty name) && is_valid info; username = name; session = info }

  -- makeResumeSessionPacket
  unfoldable pub make_resume_session_packet : String → String → JsonObject
  unfolding normalize_username
  make_resume_session_packet username session_token = object (
      ("type", str "resume_session")
      ∷ ("username", str (normalize_username username))
      ∷ ("session_token", str session_token)
      ∷ [])
