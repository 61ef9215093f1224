-- ===== src/Shared/Auth/Packets.antt =====
-- The auth packets of Shared/authprotocol.h, between the side that makes one and the side that
-- parses it.
use messenger_walkie_talkie.Prelude.{String, ◌≡◌, ◌≢◌, true, arith, eq_iff}
use messenger_walkie_talkie.Shared.Json.{JsonObject, value, to_string}
use messenger_walkie_talkie.Shared.Auth.{
  SessionInfo, is_valid, make_auth_ok_packet, parse_auth_ok_packet,
}

-- For a name that normalizing leaves as it is and that is not empty, and a valid session,
-- parseAuthOkPacket accepts what makeAuthOkPacket made and gives back the name and the session.
pub parse_auth_ok_packet-make_auth_ok_packet :
    (trimmed : String → String) (username old_name : String) (session old : SessionInfo)
    → trimmed username ≡ username
    → username ≢ ""
    → is_valid session ≡ true
    → parse_auth_ok_packet trimmed (make_auth_ok_packet username session) old_name old
      ≡ record { accepted = true; username = username; session = session }
unfolding parse_auth_ok_packet make_auth_ok_packet
parse_auth_ok_packet-make_auth_ok_packet trimmed username old_name session old fixed full valid =
    ground (arith, eq_iff username "")

-- Whatever the packet, parseAuthOkPacket accepts it only as an "auth_ok" packet, and then the name
-- that it gives is not empty and the session that it gives is valid.
parse_auth_ok_packet_accepts :
    (trimmed : String → String) (packet : JsonObject) (old_name : String) (old : SessionInfo)
    → (parse_auth_ok_packet trimmed packet old_name old).accepted ≡ true
    → (to_string (value packet "type") ≡ "auth_ok")
      × ((parse_auth_ok_packet trimmed packet old_name old).username ≢ "")
      × (is_valid (parse_auth_ok_packet trimmed packet old_name old).session ≡ true)
unfolding parse_auth_ok_packet
parse_auth_ok_packet_accepts trimmed packet old_name old h = (
  ground (arith, eq_iff (to_string (value packet "type")) "auth_ok"),
  ground (arith, eq_iff (trimmed (to_string (value packet "username"))) ""),
  ground arith,
)
