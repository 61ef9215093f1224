-- ===== src/Server/Handlers.antt =====
-- Server/server.h and Server/server.cpp: the state of the server, what it sends, and how it limits.
-- A connection is a number. What the code hands to a connection's event queue comes back as a list,
-- in order. What goes to the log is left out.
pub mod Authentication
pub mod Chat
pub mod Routing
pub mod Online
pub mod Strangers
pub mod Mailbox
use Prim.Native.String.{◌++◌ as text_append}
use messenger_walkie_talkie.Prelude.{
  ℕ, ◌+◌, ◌/◌, ◌*◌, max, String, Bool, true, false, List, [], ◌∷◌, ◌++◌, Option, none, some, map,
  if◌then◌else◌, is_empty, string_eq, str_lt,
}
use messenger_walkie_talkie.Prelude.Int.{pos}
use messenger_walkie_talkie.Prelude.Dict.{get}
use messenger_walkie_talkie.Prelude.Sort.{sort_by}
use messenger_walkie_talkie.Shared.Json.{JsonObject, object, texts, str, num, arr}
use messenger_walkie_talkie.Shared.Auth.{normalize_username}
use messenger_walkie_talkie.Server.RateLimiter.{Rule, Decision, Entries, allow}
use messenger_walkie_talkie.Server.Crypto.{Digest}
use messenger_walkie_talkie.Server.Sessions.{Sessions}
use messenger_walkie_talkie.Server.Storage.{Database}
use messenger_walkie_talkie.Server.Storage.Messages.{
  Row, load_dialog_users, load_pending_private_messages,
}

pub record Server : Type 0 where
  pub sessions : Sessions
  pub storage : Database
  pub limiter : Entries

-- What a handler reads of its surroundings: the peer's address, random bytes, and the clock where
-- the rate limiter, the handler itself, and the three places of the storage read it.
pub record Surroundings : Type 0 where
  pub peer_address : String
  pub salt : List ℕ
  pub token_bytes : List ℕ
  pub limited_at : ℕ
  pub handled_at : ℕ
  pub removed_at : ℕ
  pub checked_at : ℕ
  pub issued_at : ℕ

-- A call that the code queues for a connection.
pub data Send : Type 0 where
  plain tracked : ℕ → JsonObject → Send
  close_and_notify : ℕ → Send

abbrev pub Reply : Type 0
Reply = Server × List Send

abbrev pub values {ℓ κ} : {K : Type ℓ} {V : Type κ} → List (K × V) → List V
values [] = []
values ((k, v) ∷ m) = v ∷ values m

abbrev pub keys {ℓ κ} : {K : Type ℓ} {V : Type κ} → List (K × V) → List K
keys [] = []
keys ((k, v) ∷ m) = k ∷ keys m

-- sendAuthError
unfoldable pub send_auth_error : ℕ → String → List Send
send_auth_error connection message =
    plain connection (object (("type", str "auth_error") ∷ ("message", str message) ∷ [])) ∷ []

-- broadcastUsers
unfoldable pub broadcast_users : Sessions → List Send
broadcast_users s =
    let packet =
      object (
        ("type", str "users")
        ∷ ("list", arr (texts (sort_by str_lt (keys s.online_users))))
        ∷ []) in
    map (λ recipient. plain recipient packet) (values s.online_users)

-- sendDialogList
unfoldable pub send_dialog_list : ℕ → String → Database → Database × List Send
send_dialog_list connection username db =
    let loaded = load_dialog_users username db in
    (
      loaded.0,
      plain connection (object (("type", str "dialogs") ∷ ("list", arr (texts loaded.1)) ∷ []))
          ∷ [],
    )

-- The packet of a private message, as sendPendingPrivateMessages and handlePrivatePacket make it.
abbrev pub private_packet : String → String → String → String → ℕ → JsonObject
private_packet id from to text created_at = object (
    ("type", str "private")
    ∷ ("id", str id)
    ∷ ("from", str from)
    ∷ ("to", str to)
    ∷ ("text", str text)
    ∷ ("created_at", num (pos created_at))
    ∷ [])

abbrev pub pending_packet : Row → JsonObject
pending_packet row = private_packet row.0 row.1.from_user row.1.to_user row.1.text row.1.created_at

-- sendPendingPrivateMessages
unfoldable pub send_pending_private_messages : ℕ → String → Database → Database × List Send
send_pending_private_messages connection username db =
    let loaded = load_pending_private_messages username db in
    (loaded.0, map (λ row. tracked connection (pending_packet row)) loaded.1)

module _ (trimmed : String → String) (q : Digest) where
  -- rateLimitPeerKey
  unfoldable rate_limit_peer_key : Surroundings → String
  rate_limit_peer_key env =
      if is_empty (trimmed env.peer_address) then "<unknown>" else trimmed env.peer_address

  -- The message of a refused action.
  abbrev limit_message : String → Decision → Option String
  limit_message prefix decision =
      if decision.allowed
      then none
      else some (
          text_append prefix (
            text_append " Try again in " (
              text_append (q.number (max 1 ((decision.retry_after_ms + 999) / 1000))) " seconds.")))

  -- allowRateLimitedAction; `none` is permission.
  unfoldable pub allow_rate_limited_action :
      Surroundings → String → String → Rule → String → Server → Server × Option String
  allow_rate_limited_action env subject action rule prefix s =
      let r = allow (text_append action (text_append ":" subject)) rule env.limited_at s.limiter in
      (record s { limiter = r.0 }, limit_message prefix r.1)

  -- allowPeerAction
  unfoldable pub allow_peer_action :
      Surroundings → String → Rule → String → Server → Server × Option String
  unfolding rate_limit_peer_key allow_rate_limited_action
  allow_peer_action env action rule prefix s =
      allow_rate_limited_action env (rate_limit_peer_key env) action rule prefix s

  -- allowUserAction
  unfoldable pub allow_user_action :
      Surroundings → String → String → Rule → String → Server → Server × Option String
  unfolding rate_limit_peer_key allow_rate_limited_action normalize_username
  allow_user_action env username action rule prefix s =
      let name = normalize_username trimmed username in
      let subject = if is_empty name then rate_limit_peer_key env else name in
      allow_rate_limited_action env subject action rule prefix s
