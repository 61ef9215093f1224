-- ===== src/Client/Dispatcher/Outcome.antt =====
-- Which packets Client/networkpacketdispatcher.cpp takes.
use messenger_walkie_talkie.Prelude.{
  String, ◌≡◌, ◌≢◌, ◌⊎◌, refl, true, false, none, arith, eq_iff, string_eq,
}
use messenger_walkie_talkie.Shared.Json.{JsonObject, value, to_string}
use messenger_walkie_talkie.Shared.Auth.{
  SessionInfo, empty_session, make_auth_ok_packet, is_valid, parse_auth_ok_packet,
}
use messenger_walkie_talkie.Shared.Auth.Packets.{parse_auth_ok_packet-make_auth_ok_packet}
use messenger_walkie_talkie.Client.Dispatcher.{
  Dispatched, handled, invalid_packet, unhandled, auth_succeeded, dispatch_message,
  dispatch_auth_ok, dispatch, emits,
}

-- What a packet may come to: a signal, nothing, or an auth response that is refused.
abbrev pub Outcome : (String → String) → JsonObject → Dispatched → Type 0
Outcome trimmed packet d =
    ((d.result ≡ handled) × (d.emitted ≢ none))
    ⊎ (((d.result ≡ unhandled) × (d.emitted ≡ none))
        ⊎ ((d.result ≡ invalid_packet)
            × (d.emitted ≡ none)
            × (to_string (value packet "type") ≡ "auth_ok")
            × ((parse_auth_ok_packet trimmed packet "" empty_session).accepted ≡ false)))

dispatch_message-Outcome :
    (trimmed : String → String) (packet : JsonObject) (type : String)
    → Outcome trimmed packet (dispatch_message packet type)
unfolding dispatch_message
dispatch_message-Outcome trimmed packet type = ground arith

dispatch_auth_ok-Outcome :
    (trimmed : String → String) (packet : JsonObject)
    → to_string (value packet "type") ≡ "auth_ok"
    → Outcome trimmed packet (dispatch_auth_ok trimmed packet)
unfolding dispatch_auth_ok
dispatch_auth_ok-Outcome trimmed packet e = ground arith

-- Every packet has one of three outcomes: it is reported as handled and a signal is emitted; it is
-- unhandled and none is; or it is an "auth_ok" packet that parseAuthOkPacket does not accept, which is
-- invalid, and none is.
dispatch-Outcome :
    (trimmed : String → String) (packet : JsonObject)
    → Outcome trimmed packet (dispatch trimmed packet)
unfolding dispatch
dispatch-Outcome trimmed packet = ground (
  arith,
  eq_iff (to_string (value packet "type")) "auth_ok",
  dispatch_message-Outcome trimmed packet (to_string (value packet "type")),
  dispatch_auth_ok-Outcome trimmed packet,
)

dispatch_auth_ok_accepts :
    (trimmed : String → String) (packet : JsonObject) (username : String) (session : SessionInfo)
    → parse_auth_ok_packet trimmed packet "" empty_session
      ≡ record { accepted = true; username = username; session = session }
    → dispatch_auth_ok trimmed packet
      ≡ emits (auth_succeeded username session.token session.expires_at)
unfolding dispatch_auth_ok
dispatch_auth_ok_accepts trimmed packet username session e = rw e refl

-- The packet that the server makes for a valid session, of a user whose name is not empty and is
-- left as it is by normalizing, reaches the client as the signal of a login that succeeded, with the
-- name, the token and the time of expiry that the server put in.
pub dispatch-make_auth_ok_packet :
    (trimmed : String → String) (username : String) (session : SessionInfo)
    → trimmed username ≡ username
    → username ≢ ""
    → is_valid session ≡ true
    → dispatch trimmed (make_auth_ok_packet username session)
      ≡ emits (auth_succeeded username session.token session.expires_at)
unfolding dispatch make_auth_ok_packet
dispatch-make_auth_ok_packet trimmed username session same full valid =
    dispatch_auth_ok_accepts trimmed (make_auth_ok_packet username session) username session (
      parse_auth_ok_packet-make_auth_ok_packet trimmed username "" session empty_session same full
        valid)
