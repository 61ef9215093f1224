-- ===== src/Server/Storage/Accounts.antt =====
-- What the accounts and the sessions of Server/serverstorage.cpp promise from call to call.
use messenger_walkie_talkie.Prelude.{
  ℕ, ◌+◌, String, ◌≡◌, ◌≢◌, refl, ap, ◌∙◌, true, false, List, [], some, arith, eq_iff,
  if◌then◌else◌, string_eq,
}
use messenger_walkie_talkie.Prelude.Int.{pos}
use messenger_walkie_talkie.Prelude.Dict.{get, put, get-put_self}
use messenger_walkie_talkie.Prelude.Sql.{next_fails}
use messenger_walkie_talkie.Shared.Auth.{SessionInfo, session_lifetime_ms, normalize_username}
use messenger_walkie_talkie.Server.Crypto.{
  Digest, hash_password, verify_password, hash_session_token, session_token,
}
use messenger_walkie_talkie.Server.Storage.{
  SessionRow, Database, tried, refused, issued, is_some, issue_session, register_user, login_row,
  login_user,
}

module _ (trimmed : String → String) (q : Digest) where
  -- The session of a token that is issued at `now`.
  abbrev pub session_of : List ℕ → ℕ → SessionInfo
  session_of token_bytes now = record {
    token = session_token q token_bytes;
    expires_at = pos (now + session_lifetime_ms);
  }

  abbrev pub row_of : List ℕ → ℕ → SessionRow
  row_of token_bytes now = record {
    token_hash = hash_session_token q (session_token q token_bytes);
    expires_at = now + session_lifetime_ms;
    created_at = now;
  }

  -- An issue that succeeds: what it answers, and what it leaves.
  pub issue_session_issues :
      (bytes : List ℕ) (now : ℕ) (username : String) (db : Database) (s : SessionInfo)
      → (issue_session trimmed q bytes now username db).1 ≡ issued s
      → (s ≡ session_of bytes now)
        × ((issue_session trimmed q bytes now username db).0 ≡ record (tried db) {
          sessions = put (trimmed username) (row_of bytes now) db.sessions;
        })
        × (trimmed username ≢ "")
        × (is_some (get (trimmed username) db.users) ≡ true)
        × (next_fails db.faults ≡ false)
  unfolding issue_session normalize_username
  issue_session_issues bytes now username db s h = ground (arith, eq_iff (trimmed username) "")

  pub issue_session_succeeds :
      (bytes : List ℕ) (now : ℕ) (username : String) (db : Database)
      → trimmed username ≢ ""
      → is_some (get (trimmed username) db.users) ≡ true
      → next_fails db.faults ≡ false
      → (issue_session trimmed q bytes now username db).1 ≡ issued (session_of bytes now)
  unfolding issue_session normalize_username
  issue_session_succeeds bytes now username db full there works =
      ground (arith, eq_iff (trimmed username) "")

  -- A registration that succeeds issues a session, of the new row of users.
  pub register_user_issues :
      (salt bytes : List ℕ) (now : ℕ) (username password : String) (db : Database) (s : SessionInfo)
      → (register_user trimmed q salt bytes now username password db).1 ≡ issued s
      → (let name = trimmed username in
          let db' : Database = record (tried db) {
            users = put name (hash_password q salt password) db.users;
          } in
          (issue_session trimmed q bytes now name db').1 ≡ issued s
          × (register_user trimmed q salt bytes now username password db).0
            ≡ (issue_session trimmed q bytes now name db').0)
  unfolding register_user normalize_username
  register_user_issues salt bytes now username password db s h = ground arith

  -- A login against a known hash, where no statement fails.
  login_user_lem :
      (bytes : List ℕ) (now : ℕ) (username given stored : String) (db : Database)
      → trimmed (trimmed username) ≡ trimmed username
      → trimmed username ≢ ""
      → get (trimmed username) db.users ≡ some stored
      → db.faults ≡ []
      → (login_user trimmed q bytes now username given db).1 ≡ (
          if verify_password q given stored
          then issued (session_of bytes now)
          else refused "Wrong password")
  unfolding login_user login_row normalize_username
  login_user_lem bytes now username given stored db again full there no_fault =
      let issue =
        issue_session_succeeds bytes now (trimmed username) (tried db) (rw again full)
          (rw (again) (unfold tried in ground (arith, there)))
          (unfold tried in ground (arith, no_fault)) in
      ground (arith, issue)

  -- After a registration that succeeded, and with no statement failing from then on, a login with
  -- the same user name gets a session that lives for a week from then exactly if verifyPassword
  -- accepts the password against the hash of the registered one; else it is refused as "Wrong
  -- password". Trimming twice is trimming once.
  pub login_user-register_user :
      (salt bytes bytes' : List ℕ) (now later : ℕ) (username password given : String)
      (db : Database) (s : SessionInfo)
      → ((text : String) → trimmed (trimmed text) ≡ trimmed text)
      → (register_user trimmed q salt bytes now username password db).1 ≡ issued s
      → (register_user trimmed q salt bytes now username password db).0.faults ≡ []
      → (login_user trimmed q bytes' later username given
          (register_user trimmed q salt bytes now username password db).0).1
        ≡ (if verify_password q given (hash_password q salt password)
            then issued (session_of bytes' later)
            else refused "Wrong password")
  login_user-register_user salt bytes bytes' now later username password given db s again ok
        no_fault =
      let name = trimmed username in
      let db' : Database = record (tried db) {
        users = put name (hash_password q salt password) db.users;
      } in
      let (issue, left) = register_user_issues salt bytes now username password db s ok in
      let facts = issue_session_issues bytes now name db' s issue in
      let users : (register_user trimmed q salt bytes now username password db).0.users
          ≡ db'.users =
        ap (λ (d : Database). d.users) left
        ∙ ap (λ (d : Database). d.users) facts.1
        ∙ unfold tried in refl in
      login_user_lem bytes' later username given (hash_password q salt password)
        (register_user trimmed q salt bytes now username password db).0 (again username)
        (λ e. facts.2 (again username ∙ e))
        (ap (get name) users ∙ get-put_self name (hash_password q salt password) db.users) no_fault
