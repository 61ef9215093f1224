-- ===== src/Tests/Storage.antt =====
-- The storage at concrete inputs: a user who registers and messages that wait for it.
use messenger_walkie_talkie.Prelude.{
  ◌+◌, String, ◌≡◌, refl, false, [], ◌∷◌, none, some, arith, leb, if◌then◌else◌, length, differ,
  string_eq,
}
use messenger_walkie_talkie.Prelude.Int.{pos}
use messenger_walkie_talkie.Prelude.Dict.{get, put, IsDistinct}
use messenger_walkie_talkie.Prelude.Sort.{IsSorted}
use messenger_walkie_talkie.Shared.Auth.{
  session_lifetime_ms, normalize_username, is_ascii_username_valid, is_username_unit,
  all_username_units,
}
use messenger_walkie_talkie.Server.Crypto.{
  Digest, zeros, constant_time_equals, hash_password, verify_password, hash_session_token,
  session_token,
}
use messenger_walkie_talkie.Server.Storage.{
  MessageRow, Database, refused, issued, tried, is_username_valid, issue_session, register_user,
  login_user, resume_session,
}
use messenger_walkie_talkie.Server.Storage.Accounts.{session_of, login_user-register_user}
use messenger_walkie_talkie.Server.Storage.Tokens.{
  registers, authenticate, resume_session-authenticate,
}
use messenger_walkie_talkie.Server.Storage.Messages.{
  load_pending_private_messages, load_private_history,
}
use messenger_walkie_talkie.Server.Storage.Messages.Life.{
  Kept, delivers, reads, stores_private, apply_ops, apply_ops-Kept,
}
use messenger_walkie_talkie.Server.Storage.Messages.Pending.{
  comes_before, undelivered, load_pending_private_messages_lem,
}
use messenger_walkie_talkie.Server.Storage.Messages.History.{exchanged, load_private_history_lem}

abbrev q : Digest
q = record {
  sha256 = λ bytes. zeros 32;
  to_hex = λ bytes. "00";
  from_hex = λ text. zeros 32;
  to_utf8 = λ text. [];
  number = λ n. "120000";
  to_int = λ text. some (pos 120000);
  split = λ text. [];
}

abbrev as_is : String → String
as_is s = s

abbrev hello : MessageRow
hello = record {
  from_user = "bob";
  to_user = "ann";
  text = "hello";
  created_at = 7;
  delivered_at = none;
  read_at = none;
}

abbrev db : Database
db = record {
  users = [];
  sessions = [];
  messages = ("m1", hello) ∷ [];
  broadcast_messages = [];
  faults = [];
}

registered :
    (register_user as_is q (1 ∷ []) (2 ∷ []) 100 "ann" "password" db).1
    ≡ issued (session_of as_is q (2 ∷ []) 100)
unfolding register_user is_username_valid issue_session tried normalize_username
    is_ascii_username_valid all_username_units is_username_unit get put
registered = refl

no_fault : (register_user as_is q (1 ∷ []) (2 ∷ []) 100 "ann" "password" db).0.faults ≡ []
unfolding register_user is_username_valid issue_session tried normalize_username
    is_ascii_username_valid all_username_units is_username_unit get put
no_fault = refl

login_user-register_user_example :
    (login_user as_is q
      (3 ∷ [])
      200
      "ann"
      "guess"
      (register_user as_is q (1 ∷ []) (2 ∷ []) 100 "ann" "password" db).0).1
    ≡ (if verify_password q "guess" (hash_password q (1 ∷ []) "password")
        then issued (session_of as_is q (3 ∷ []) 200)
        else refused "Wrong password")
login_user-register_user_example =
    login_user-register_user as_is q (1 ∷ []) (2 ∷ []) (3 ∷ []) 100 200 "ann" "password" "guess" db
      (session_of as_is q (2 ∷ []) 100) (λ text. refl) registered no_fault

resume_session-authenticate_example :
    (resume_session as_is q
      (3 ∷ [])
      200
      201
      202
      "ann"
      "token"
      (register_user as_is q (1 ∷ []) (2 ∷ []) 100 "ann" "password" db).0).1
    ≡ (if leb (100 + session_lifetime_ms) 201
        then refused "Session expired. Please sign in again."
        else if constant_time_equals
            (q.to_utf8 (hash_session_token q "token"))
            (q.to_utf8 (hash_session_token q (session_token q (2 ∷ []))))
        then issued (session_of as_is q (3 ∷ []) 202)
        else refused "Session invalid. Please sign in again.")
unfolding authenticate
resume_session-authenticate_example =
    resume_session-authenticate as_is q (registers (1 ∷ []) "password") (2 ∷ []) (3 ∷ []) 100 200
      201 202 "ann" "token" db (session_of as_is q (2 ∷ []) 100) (λ text. refl) registered no_fault
      (omega arith) (differ "token" "" refl)

apply_ops-Kept_example : Kept hello (
    get "m1"
      (apply_ops
        (delivers "m1" 9 ∷ stores_private "m1" "bob" "ann" "hello" 11 ∷ reads "m1" 12 ∷ [])
        db).messages)
unfolding get
apply_ops-Kept_example =
    apply_ops-Kept
      (delivers "m1" 9 ∷ stores_private "m1" "bob" "ann" "hello" 11 ∷ reads "m1" 12 ∷ []) "m1" hello
      db refl

load_pending_private_messages_lem_example :
    (get "m1" (load_pending_private_messages "ann" db).1 ≡ undelivered "ann" (get "m1" db.messages))
    × IsDistinct (load_pending_private_messages "ann" db).1
    × IsSorted comes_before (load_pending_private_messages "ann" db).1
unfolding get
load_pending_private_messages_lem_example =
    load_pending_private_messages_lem "ann" "m1" db (refl, tt) refl

-- Three messages, of which one is to a third user.
abbrev letters : Database
letters = record db {
  messages =
      ("m1", hello)
      ∷ ("m2", record hello { from_user = "ann"; to_user = "bob"; created_at = 9 })
      ∷ ("m3", record hello { to_user = "eve"; created_at = 8 })
      ∷ [];
}

load_private_history_lem_example :
    let shown = (load_private_history "ann" "bob" (pos 1) letters).1 in
    (length shown ≡ 1)
    × IsDistinct shown
    × IsSorted comes_before shown
    × ((i : String) (row : MessageRow)
        → get i shown ≡ some row
        → exchanged "ann" "bob" i (get i letters.messages) ≡ some row)
    × ((i j : String) (row left : MessageRow)
        → get i shown ≡ some row
        → exchanged "ann" "bob" j (get j letters.messages) ≡ some left
        → get j shown ≡ none
        → comes_before (i, row) (j, left) ≡ false)
unfolding get
load_private_history_lem_example =
    load_private_history_lem "ann" "bob" (pos 1) letters (refl, (refl, (refl, tt))) refl
