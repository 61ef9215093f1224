-- ===== src/Server/Storage.antt =====
-- Server/serverstorage.h and Server/serverstorage.cpp: the four tables, each an association list by
-- its primary key, and the statements on them. SQLite may fail at any statement: `faults` are the
-- answers to the statements to come, `true` for a failure, and none left for no failure any more.
-- Clocks and random bytes are arguments; `trimmed` stands for QString::trimmed.
pub mod Accounts
pub mod Tokens
pub mod Messages
use messenger_walkie_talkie.Prelude.{
  ℕ, ◌+◌, String, Bool, true, false, not, ◌&&◌, ◌||◌, List, [], ◌∷◌, Option, none, some, ltb, leb,
  if◌then◌else◌, size, is_empty, string_eq,
}
use messenger_walkie_talkie.Prelude.Int.{ℤ, pos}
use messenger_walkie_talkie.Prelude.Dict.{get, put, remove}
use messenger_walkie_talkie.Prelude.Sql.{next_fails, rest_of}
use messenger_walkie_talkie.Shared.Auth.{
  SessionInfo, session_lifetime_ms, min_password_length, is_ascii_username_valid,
  normalize_username,
}
use messenger_walkie_talkie.Server.Crypto.{
  Digest, constant_time_equals, hash_password, verify_password, hash_session_token, session_token,
}

pub record SessionRow : Type 0 where
  pub token_hash : String
  pub expires_at : ℕ
  pub created_at : ℕ

pub record MessageRow : Type 0 where
  pub from_user : String
  pub to_user : String
  pub text : String
  pub created_at : ℕ
  pub delivered_at : Option ℕ
  pub read_at : Option ℕ

pub record BroadcastRow : Type 0 where
  pub from_user : String
  pub text : String
  pub created_at : ℕ

pub record Database : Type 0 where
  pub users : List (String × String)
  pub sessions : List (String × SessionRow)
  pub messages : List (String × MessageRow)
  pub broadcast_messages : List (String × BroadcastRow)
  pub faults : List Bool

-- The database after a statement was tried.
unfoldable pub tried : Database → Database
tried db = record db { faults = rest_of db.faults }

-- What an authentication comes to: the error message, or the session that was issued.
pub data Outcome : Type 0 where
  refused : String → Outcome
  issued : SessionInfo → Outcome

abbrev pub is_some {ℓ} : {A : Type ℓ} → Option A → Bool
is_some none = false
is_some (some a) = true

module _ (trimmed : String → String) (q : Digest) where
  unfoldable pub is_username_valid : String → Bool
  unfolding normalize_username
  is_username_valid username = is_ascii_username_valid (normalize_username trimmed username)

  -- issueSession. The table's foreign key refuses a session of no user.
  unfoldable pub issue_session : List ℕ → ℕ → String → Database → Database × Outcome
  unfolding tried normalize_username
  issue_session token_bytes now username db =
      let name = normalize_username trimmed username in
      let token = session_token q token_bytes in
      let expires = now + session_lifetime_ms in
      let db' = tried db in
      if is_empty name
      then (db, refused "User not found")
      else if next_fails db.faults || not (is_some (get name db.users))
      then (db', refused "Database error")
      else (
        record db' {
          sessions =
              put name
                (record {
                  token_hash = hash_session_token q token;
                  expires_at = expires;
                  created_at = now;
                })
                db.sessions;
        },
        issued (record { token = token; expires_at = pos expires }),
      )

  -- registerUser
  unfoldable pub register_user :
      List ℕ → List ℕ → ℕ → String → String → Database → Database × Outcome
  unfolding is_username_valid issue_session tried normalize_username
  register_user salt token_bytes now username password db =
      let name = normalize_username trimmed username in
      let db' = tried db in
      if not (is_username_valid name)
      then (db, refused "Username must be 3-32 latin letters, digits or underscore")
      else if ltb (size password) min_password_length
      then (db, refused "Password must be at least 8 characters")
      else if next_fails db.faults
      then (db', refused "Database error")
      else if is_some (get name db.users)
      then (db', refused "User already exists")
      else issue_session token_bytes now name
          (record db' { users = put name (hash_password q salt password) db.users })

  -- loginUser, from the row of the user on.
  unfoldable pub login_row :
      List ℕ → ℕ → String → String → Option String → Database → Database × Outcome
  unfolding issue_session
  login_row token_bytes now name password none db = (db, refused "User not found")
  login_row token_bytes now name password (some stored_hash) db =
      if not (verify_password q password stored_hash)
      then (db, refused "Wrong password")
      else issue_session token_bytes now name db

  unfoldable pub login_user : List ℕ → ℕ → String → String → Database → Database × Outcome
  unfolding login_row tried normalize_username
  login_user token_bytes now username password db =
      let name = normalize_username trimmed username in
      if next_fails db.faults
      then (tried db, refused "Database error")
      else login_row token_bytes now name password (get name db.users) (tried db)

  -- invalidateSession
  unfoldable pub invalidate_session : String → Database → Database × Bool
  unfolding tried normalize_username
  invalidate_session username db =
      let name = normalize_username trimmed username in
      let db' = tried db in
      if is_empty name
      then (db, true)
      else if next_fails db.faults
      then (db', false)
      else (record db' { sessions = remove name db.sessions }, true)

  abbrev is_expired_row : ℕ → Option SessionRow → Bool
  is_expired_row now none = false
  is_expired_row now (some row) = leb row.expires_at now

  -- removeExpiredSession
  unfoldable pub remove_expired_session : ℕ → String → Database → Database × Bool
  unfolding tried normalize_username
  remove_expired_session now username db =
      let name = normalize_username trimmed username in
      let db' = tried db in
      if is_empty name
      then (db, true)
      else if next_fails db.faults
      then (db', false)
      else if is_expired_row now (get name db.sessions)
      then (record db' { sessions = remove name db.sessions }, true)
      else (db', true)

  -- resumeSession, from the row of the session on.
  unfoldable pub resume_row :
      List ℕ → ℕ → ℕ → String → String → Option SessionRow → Database → Database × Outcome
  unfolding invalidate_session issue_session
  resume_row token_bytes checked issued_at name token none db =
      (db, refused "Session expired. Please sign in again.")
  resume_row token_bytes checked issued_at name token (some row) db =
      if leb row.expires_at checked
      then ((invalidate_session name db).0, refused "Session expired. Please sign in again.")
      else if not
          (constant_time_equals (q.to_utf8 (hash_session_token q token)) (q.to_utf8 row.token_hash))
      then (db, refused "Session invalid. Please sign in again.")
      else issue_session token_bytes issued_at name db

  -- resumeSession; the clock is read when the expired session is removed, when the row is checked
  -- and when the new session is issued.
  unfoldable pub resume_session :
      List ℕ → ℕ → ℕ → ℕ → String → String → Database → Database × Outcome
  unfolding remove_expired_session resume_row tried normalize_username
  resume_session token_bytes removed checked issued_at username token db =
      let name = normalize_username trimmed username in
      let r = remove_expired_session removed name db in
      if is_empty name || is_empty token
      then (db, refused "Session expired. Please sign in again.")
      else if not r.1
      then (r.0, refused "Database error")
      else if next_fails r.0.faults
      then (tried r.0, refused "Database error")
      else resume_row token_bytes checked issued_at name token (get name r.0.sessions) (tried r.0)

  -- userExists
  unfoldable pub user_exists : String → Database → Database × Bool
  unfolding tried normalize_username
  user_exists username db =
      let name = normalize_username trimmed username in
      if is_empty name
      then (db, false)
      else (tried db, not (next_fails db.faults) && is_some (get name db.users))
