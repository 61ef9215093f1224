-- ===== src/Server/Handlers/Mailbox.antt =====
-- A private message on its way through Server/server.cpp: stored, waiting, acknowledged.
use messenger_walkie_talkie.Prelude.{
  ℕ, String, ◌≡◌, ◌≢◌, ◌⊎◌, inl, inr, refl, sym, ap, subst, ◌∙◌, Bool, true, false, not, ◌&&◌, List,
  [], ◌∷◌, Option, none, some, arith, eq_iff, if◌then◌else◌, string_eq,
}
use messenger_walkie_talkie.Prelude.Int.{pos}
use messenger_walkie_talkie.Prelude.Dict.{get, put, get-put_self, IsDistinct, put-IsDistinct}
use messenger_walkie_talkie.Shared.Json.{JsonObject, object, str, num, value, to_string}
use messenger_walkie_talkie.Shared.Auth.{
  normalize_username, is_message_text_valid, is_private_recipient_valid,
}
use messenger_walkie_talkie.Server.Crypto.{Digest}
use messenger_walkie_talkie.Server.Storage.{MessageRow, Database, tried, user_exists}
use messenger_walkie_talkie.Server.Storage.Messages.{
  message_row, coalesce, store_private_message, mark_message_delivered, is_pending_for,
  load_pending_private_messages,
}
use messenger_walkie_talkie.Server.Storage.Messages.Pending.{listed, pending-listed}
use messenger_walkie_talkie.Server.Handlers.{
  Server, Surroundings, Send, plain, tracked, Reply, private_packet, pending_packet,
}
use messenger_walkie_talkie.Server.Handlers.Chat.{error_packet, forward_private, private_message}
use messenger_walkie_talkie.Server.Handlers.Routing.{on_tracked_packet_acknowledged}

either-reply :
    (P : Reply → Type 0) (b : Bool) (x y : Reply)
    → (b ≡ true → P x)
    → (b ≡ false → P y)
    → P (if b then x else y)
either-reply P true x y p q = p refl
either-reply P false x y p q = q refl

-- Whether a message waits for a user.
abbrev pub waits : String → String → Database → Bool
waits user id db = listed id (load_pending_private_messages user db).1

row-waits :
    (user id : String) (db : Database) (row : MessageRow)
    → IsDistinct db.messages
    → db.faults ≡ []
    → get id db.messages ≡ some row
    → waits user id db ≡ is_pending_for user (id, row)
row-waits user id db row d no_fault there = pending-listed user id db d no_fault ∙ rw there refl

marked_row : MessageRow → ℕ → MessageRow
marked_row row now = record row { delivered_at = coalesce row.delivered_at now }

marked :
    (id : String) (now : ℕ) (db : Database) (row : MessageRow)
    → db.faults ≡ []
    → get id db.messages ≡ some row
    → (((mark_message_delivered id now db).0.messages ≡ put id (marked_row row now) db.messages)
        × ((mark_message_delivered id now db).0.faults ≡ []))
      × ((mark_message_delivered id now db).1 ≡ true)
unfolding mark_message_delivered tried marked_row
marked id now db row no_fault there = rw (no_fault, there) ((refl, refl), refl)

marked-not-pending :
    (user id : String) (row : MessageRow) (now : ℕ)
    → is_pending_for user (id, marked_row row now) ≡ false
unfolding is_pending_for marked_row
marked-not-pending user id row now = ground arith

acknowledged-storage :
    (env : Surroundings) (id : String) (row : MessageRow) (s : Server)
    → (mark_message_delivered id env.handled_at s.storage).1 ≡ true
    → id ≢ ""
    → row.from_user ≢ ""
    → row.to_user ≢ ""
    → (on_tracked_packet_acknowledged env (pending_packet (id, row)) s).0.storage
      ≡ (mark_message_delivered id env.handled_at s.storage).0
unfolding on_tracked_packet_acknowledged
acknowledged-storage env id row s works named from to =
    ground (arith, eq_iff id "", eq_iff row.from_user "", eq_iff row.to_user "")

-- After the acknowledgement of a private packet, as it is sent from the row of its message, the
-- message no longer waits for its receiver, where no statement fails, no id is twice in the
-- table, and the id and the two names are not empty.
pub acknowledged_waits_no_more :
    (env : Surroundings) (id : String) (row : MessageRow) (s : Server)
    → IsDistinct s.storage.messages
    → s.storage.faults ≡ []
    → get id s.storage.messages ≡ some row
    → id ≢ ""
    → row.from_user ≢ ""
    → row.to_user ≢ ""
    → waits row.to_user id
        (on_tracked_packet_acknowledged env (pending_packet (id, row)) s).0.storage
      ≡ false
acknowledged_waits_no_more env id row s d no_fault there named from to =
    let now = env.handled_at in
    let ((rows, faults), works) = marked id now s.storage row no_fault there in
    let db' = (mark_message_delivered id now s.storage).0 in
    let d' =
      subst IsDistinct (sym rows) (put-IsDistinct id (marked_row row now) s.storage.messages d) in
    let there' = ap (get id) rows ∙ get-put_self id (marked_row row now) s.storage.messages in
    ap (waits row.to_user id) (acknowledged-storage env id row s works named from to)
    ∙ row-waits row.to_user id db' (marked_row row now) d' faults there'
    ∙ marked-not-pending row.to_user id row now

module _ (trimmed : String → String) (q : Digest) where
  -- The row of a message that was just sent.
  abbrev pub fresh_row : String → String → String → ℕ → MessageRow
  fresh_row from to text now = record {
    from_user = from;
    to_user = to;
    text = text;
    created_at = now;
    delivered_at = none;
    read_at = none;
  }

  -- What the sender of a refused packet gets.
  abbrev pub refusal : String → String → JsonObject
  refusal message id =
      object (("type", str "error") ∷ ("message", str message) ∷ ("id", str id) ∷ [])

  -- What goes out with a message: itself to the connection of its receiver, or word to its sender.
  abbrev pub outgoing : ℕ → String → String → String → String → ℕ → Option ℕ → List Send
  outgoing c id from to text now none =
      plain c (
        object (
          ("type", str "queued")
          ∷ ("id", str id)
          ∷ ("to", str to)
          ∷ ("created_at", num (pos now))
          ∷ []))
      ∷ []
  outgoing c id from to text now (some receiver) =
      tracked receiver (
        object (
          ("type", str "private")
          ∷ ("id", str id)
          ∷ ("from", str from)
          ∷ ("to", str to)
          ∷ ("text", str text)
          ∷ ("created_at", num (pos now))
          ∷ []))
      ∷ []

  -- Whether a packet of a user may be sent: not to itself, with a text, to a user that is there.
  abbrev pub may_send : String → JsonObject → Server → Bool
  may_send u p s =
      let to = trimmed (to_string (value p "to")) in
      is_private_recipient_valid trimmed u to
      && (is_message_text_valid trimmed (to_string (value p "text"))
          && (user_exists trimmed q to s.storage).1)

  -- What a private packet comes to: an error to its sender, with no message written; or the
  -- message is in the table, waits for its receiver, and goes out.
  abbrev pub Sent : Surroundings → ℕ → String → JsonObject → Server → Reply → Type 0
  Sent env c u p s r =
      let to = trimmed (to_string (value p "to")) in
      let id = to_string (value p "id") in
      let text = to_string (value p "text") in
      let now = env.handled_at in
      ((may_send u p s ≡ false)
        × ((message : String) × (r.1 ≡ plain c (refusal message id) ∷ []))
        × (r.0.storage.messages ≡ s.storage.messages))
      ⊎ ((may_send u p s ≡ true)
          × (r.1 ≡ outgoing c id u to text now (get to s.sessions.online_users))
          × (get id r.0.storage.messages ≡ some (fresh_row u to text now))
          × (waits to id r.0.storage ≡ true))

  user_exists-keeps :
      (to : String) (db : Database)
      → db.faults ≡ []
      → ((user_exists trimmed q to db).0.messages ≡ db.messages)
        × ((user_exists trimmed q to db).0.faults ≡ [])
  unfolding user_exists tried
  user_exists-keeps to db no_fault = ground (arith, no_fault)

  stored-waits :
      (id from to text : String) (now : ℕ) (db : Database)
      → IsDistinct db.messages
      → db.faults ≡ []
      → get id db.messages ≡ none
      → waits to id (store_private_message id from to text now db).0 ≡ true
  unfolding store_private_message tried
  stored-waits id from to text now db d no_fault fresh =
      let row = message_row from to text now none in
      let db' = (store_private_message id from to text now db).0 in
      let rows : db'.messages ≡ put id row db.messages = rw (no_fault, fresh) refl in
      let faults : db'.faults ≡ [] = rw no_fault refl in
      row-waits to id db' row (subst IsDistinct (sym rows) (put-IsDistinct id row db.messages d))
        faults (ap (get id) rows ∙ get-put_self id row db.messages)
      ∙ unfold is_pending_for in ground (arith, eq_iff to to)

  stored-row :
      (id from to text : String) (now : ℕ) (db : Database)
      → db.faults ≡ []
      → get id db.messages ≡ none
      → get id (store_private_message id from to text now db).0.messages
        ≡ some (fresh_row from to text now)
  unfolding store_private_message tried
  stored-row id from to text now db no_fault fresh =
      rw (no_fault, fresh) (get-put_self id (fresh_row from to text now) db.messages)

  outgoing-forward_private :
      (c : ℕ) (id from to text : String) (now : ℕ) (receiver : Option ℕ)
      → forward_private c (private_packet id from to text now) id to now receiver
        ≡ outgoing c id from to text now receiver
  unfolding forward_private
  outgoing-forward_private c id from to text now none = refl
  outgoing-forward_private c id from to text now (some receiver) = refl

  store_works :
      (id from to text : String) (now : ℕ) (db : Database)
      → db.faults ≡ []
      → (store_private_message id from to text now db).1 ≡ true
  unfolding store_private_message
  store_works id from to text now db no_fault = rw no_fault refl

  -- Where no statement fails, no id is twice in the table and the packet has an id, which is not in it,
  -- a private packet that has passed the rate limit is refused exactly if it is to its sender or to
  -- no user that is there, its sender has no name, or its text is not valid: then its sender gets one error, and no message is written.
  -- Otherwise its message is in the table, with the sender and the time of the server, waits for the
  -- receiver, and goes out as it is to the connection of the receiver alone; where that is not online, the
  -- sender alone gets word that it is queued.
  pub private_message-Sent :
      (env : Surroundings) (c : ℕ) (u : String) (p : JsonObject) (s : Server)
      → IsDistinct s.storage.messages
      → s.storage.faults ≡ []
      → to_string (value p "id") ≢ ""
      → get (to_string (value p "id")) s.storage.messages ≡ none
      → Sent env c u p s (private_message trimmed q env c u p s)
  unfolding private_message
  private_message-Sent env c u p s d no_fault given fresh =
      let to = normalize_username trimmed (to_string (value p "to")) in
      let id = to_string (value p "id") in
      let text = to_string (value p "text") in
      let exists = user_exists trimmed q to s.storage in
      let stored = store_private_message id u to text env.handled_at exists.0 in
      let (rows, faults) = user_exists-keeps to s.storage no_fault in
      let d' = subst IsDistinct (sym rows) d in
      let fresh' = ap (get id) rows ∙ fresh in
      let works = store_works id u to text env.handled_at exists.0 faults in
      let deny : String → Database → Reply =
        λ message db. (record s { storage = db }, plain c (error_packet message id) ∷ []) in
      let sent = private_packet id u to text env.handled_at in
      let done : Reply = (
        record s { storage = stored.0 },
        forward_private c sent id to env.handled_at (get to s.sessions.online_users),
      ) in
      let r4 = if not stored.1 then deny "Database error" stored.0 else done in
      let r3 = if not exists.1 then deny "User not found" exists.0 else r4 in
      let r2 =
        if not (is_message_text_valid trimmed text)
        then deny "Message must be 1-4000 characters" s.storage
        else r3 in
      let P = Sent env c u p s in
      let receiver = get to s.sessions.online_users in
      let valid = is_private_recipient_valid trimmed u to in
      let readable = is_message_text_valid trimmed text in
      either-reply P (not valid) (deny "You cannot send private messages to yourself" s.storage) r2
        (λ e. inl (ground (arith, e), ("You cannot send private messages to yourself", refl), refl))
        (λ e2.
          either-reply P (not readable) (deny "Message must be 1-4000 characters" s.storage) r3
            (λ e. inl (ground (arith, e), ("Message must be 1-4000 characters", refl), refl))
            (λ e3.
              either-reply P (not exists.1) (deny "User not found" exists.0) r4
                (λ e. inl (ground (arith, e), ("User not found", refl), rows))
                (λ e4.
                  either-reply P (not stored.1) (deny "Database error" stored.0) done
                    (λ e. absurd (ground (arith, works, e)))
                    (λ e. inr (
                      ground (arith, e2, e3, e4),
                      outgoing-forward_private c id u to text env.handled_at receiver,
                      stored-row id u to text env.handled_at exists.0 faults fresh',
                      stored-waits id u to text env.handled_at exists.0 d' faults fresh',
                    )))))
