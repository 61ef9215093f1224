-- ===== src/Tests/Slots.antt =====
-- The slots of the server at concrete inputs.
use messenger_walkie_talkie.Prelude.{
  String, ◌≡◌, refl, false, [], ◌∷◌, none, some, differ, string_eq,
}
use messenger_walkie_talkie.Prelude.Int.{pos}
use messenger_walkie_talkie.Prelude.Dict.{get}
use messenger_walkie_talkie.Shared.Json.{JsonObject, object, str}
use messenger_walkie_talkie.Server.Crypto.{Digest, zeros}
use messenger_walkie_talkie.Server.Sessions.{no_sessions, username_for}
use messenger_walkie_talkie.Server.Sessions.Inverse.{IsInverse, no_sessions-IsInverse}
use messenger_walkie_talkie.Server.Storage.{MessageRow}
use messenger_walkie_talkie.Server.Handlers.{Server, Surroundings, pending_packet}
use messenger_walkie_talkie.Server.Handlers.Chat.{private_message}
use messenger_walkie_talkie.Server.Handlers.Routing.{
  on_packet_received, on_tracked_packet_acknowledged,
}
use messenger_walkie_talkie.Server.Handlers.Online.{receives, closed, run, run-IsInverse}
use messenger_walkie_talkie.Server.Handlers.Strangers.{chats, stranger_writes_no_messages}
use messenger_walkie_talkie.Server.Handlers.Mailbox.{
  waits, acknowledged_waits_no_more, Sent, private_message-Sent,
}

abbrev q : Digest
q = record {
  sha256 = λ bytes. zeros 32;
  to_hex = λ bytes. "00";
  from_hex = λ text. zeros 32;
  to_utf8 = λ text. [];
  number = λ n. "120000";
  to_int = λ text. some (pos 120000);
  split = λ text. [];
}

abbrev as_is : String → String
as_is s = s

abbrev env : Surroundings
env = record {
  peer_address = "10.0.0.1";
  salt = 1 ∷ [];
  token_bytes = 2 ∷ [];
  limited_at = 100;
  handled_at = 101;
  removed_at = 102;
  checked_at = 103;
  issued_at = 104;
}

abbrev hello : MessageRow
hello = record {
  from_user = "bob";
  to_user = "ann";
  text = "hello";
  created_at = 7;
  delivered_at = none;
  read_at = none;
}

abbrev server : Server
server = record {
  sessions = no_sessions;
  storage = record {
    users = ("ann", "hash") ∷ [];
    sessions = [];
    messages = ("m1", hello) ∷ [];
    broadcast_messages = [];
    faults = [];
  };
  limiter = [];
}

abbrev register : JsonObject
register =
    object (("type", str "register") ∷ ("username", str "bob") ∷ ("password", str "password") ∷ [])

abbrev private : JsonObject
private =
    object
      (("type", str "private") ∷ ("to", str "ann") ∷ ("id", str "m2") ∷ ("text", str "hi") ∷ [])

run-IsInverse_example :
    IsInverse (run as_is q (receives env 1 register ∷ closed 1 ∷ []) server).0.sessions
run-IsInverse_example =
    run-IsInverse as_is q (λ text. refl) (receives env 1 register ∷ closed 1 ∷ []) server
      no_sessions-IsInverse

nobody : username_for 1 server.sessions ≡ ""
unfolding username_for get
nobody = refl

stranger_writes_no_messages_example :
    chats (on_packet_received as_is q env 1 private server).0.storage ≡ chats server.storage
stranger_writes_no_messages_example =
    stranger_writes_no_messages as_is q env 1 private server nobody

acknowledged_waits_no_more_example :
    waits "ann" "m1"
      (on_tracked_packet_acknowledged env (pending_packet ("m1", hello)) server).0.storage
    ≡ false
unfolding get
acknowledged_waits_no_more_example =
    acknowledged_waits_no_more env "m1" hello server (refl, tt) refl refl (differ "m1" "" refl)
      (differ "bob" "" refl) (differ "ann" "" refl)

private_message-Sent_example :
    Sent as_is q env 1 "bob" private server (private_message as_is q env 1 "bob" private server)
unfolding get
private_message-Sent_example =
    private_message-Sent as_is q env 1 "bob" private server (refl, tt) refl (differ "m2" "" refl)
      refl
