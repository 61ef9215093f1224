-- ===== src/Server/Storage/Tokens.antt =====
-- The session tokens of Server/serverstorage.cpp: which of them resume a session.
use messenger_walkie_talkie.Prelude.{
  ℕ, ◌+◌, ◌≤◌, String, ◌≡◌, ◌≢◌, sym, ap, subst, ◌∙◌, true, List, [], Option, none, some, arith,
  eq_iff, leb, if◌then◌else◌, string_eq,
}
use messenger_walkie_talkie.Prelude.Dict.{get, get-remove, get-put_self}
use messenger_walkie_talkie.Shared.Auth.{SessionInfo, session_lifetime_ms, normalize_username}
use messenger_walkie_talkie.Server.Crypto.{
  Digest, constant_time_equals, hash_session_token, session_token,
}
use messenger_walkie_talkie.Server.Storage.{
  SessionRow, Database, tried, Outcome, refused, issued, is_some, issue_session, register_user,
  login_row, login_user, remove_expired_session, resume_row, resume_session,
}
use messenger_walkie_talkie.Server.Storage.Accounts.{
  session_of, row_of, issue_session_issues, issue_session_succeeds, register_user_issues,
}

-- The three ways to a session, with their random bytes and clocks.
pub data Request : Type 0 where
  registers : List ℕ → String → Request
  logs_in : String → Request
  resumes : ℕ → ℕ → String → Request

module _ (trimmed : String → String) (q : Digest) where
  unfoldable pub authenticate : Request → List ℕ → ℕ → String → Database → Database × Outcome
  authenticate (registers salt password) bytes now username db =
      register_user trimmed q salt bytes now username password db
  authenticate (logs_in password) bytes now username db =
      login_user trimmed q bytes now username password db
  authenticate (resumes removed checked token) bytes now username db =
      resume_session trimmed q bytes removed checked now username token db

  -- What a success leaves: the row of the new token, of a user who is there.
  abbrev Issued : List ℕ → ℕ → String → Database → Type 0
  Issued bytes now username db =
      (get (trimmed username) db.sessions ≡ some (row_of trimmed q bytes now))
      × (is_some (get (trimmed username) db.users) ≡ true)
      × (trimmed username ≢ "")

  issue-Issued :
      (bytes : List ℕ) (now : ℕ) (username : String) (db : Database) (s : SessionInfo)
      → trimmed (trimmed username) ≡ trimmed username
      → (issue_session trimmed q bytes now (trimmed username) db).1 ≡ issued s
      → Issued bytes now username (issue_session trimmed q bytes now (trimmed username) db).0
  issue-Issued bytes now username db s again h =
      let facts = issue_session_issues trimmed q bytes now (trimmed username) db s h in
      (
        ap (λ (d : Database). get (trimmed username) d.sessions) facts.1
            ∙ rw again (get-put_self (trimmed username) (row_of trimmed q bytes now) db.sessions),
        ap (λ (d : Database). is_some (get (trimmed username) d.users)) facts.1
            ∙ unfold tried in ap (λ name. is_some (get name db.users)) (sym again) ∙ facts.3,
        λ e. facts.2 (again ∙ e),
      )

  -- An answer that a call of issueSession gave.
  abbrev ThroughIssue : List ℕ → ℕ → String → SessionInfo → Database × Outcome → Type 0
  ThroughIssue bytes now name s answer =
      (db : Database) × ((issue_session trimmed q bytes now name db).1 ≡ issued s)
      × (answer.0 ≡ (issue_session trimmed q bytes now name db).0)

  login_row-issues :
      (bytes : List ℕ) (now : ℕ) (name password : String) (stored : Option String) (db : Database)
      (s : SessionInfo)
      → (login_row trimmed q bytes now name password stored db).1 ≡ issued s
      → ThroughIssue bytes now name s (login_row trimmed q bytes now name password stored db)
  unfolding login_row
  login_row-issues bytes now name password none db s h = absurd (ground arith)
  login_row-issues bytes now name password (some stored) db s h = (db, ground arith, ground arith)

  resume_row-issues :
      (bytes : List ℕ) (checked now : ℕ) (name token : String) (row : Option SessionRow)
      (db : Database) (s : SessionInfo)
      → (resume_row trimmed q bytes checked now name token row db).1 ≡ issued s
      → ThroughIssue bytes now name s (resume_row trimmed q bytes checked now name token row db)
  unfolding resume_row
  resume_row-issues bytes checked now name token none db s h = absurd (ground arith)
  resume_row-issues bytes checked now name token (some row) db s h =
      (db, ground arith, ground arith)

  -- A resume that succeeds has passed the guards and comes to the row.
  resume_session-row :
      (bytes : List ℕ) (removed checked now : ℕ) (username token : String) (db : Database)
      (s : SessionInfo)
      → (resume_session trimmed q bytes removed checked now username token db).1 ≡ issued s
      → (let r = remove_expired_session trimmed q removed (trimmed username) db in
          resume_session trimmed q bytes removed checked now username token db
          ≡ resume_row trimmed q bytes checked now
              (trimmed username)
              token
              (get (trimmed username) r.0.sessions)
              (tried r.0))
  unfolding resume_session normalize_username
  resume_session-row bytes removed checked now username token db s h = ground arith

  authenticate-issues :
      (r : Request) (bytes : List ℕ) (now : ℕ) (username : String) (db : Database) (s : SessionInfo)
      → (authenticate r bytes now username db).1 ≡ issued s
      → ThroughIssue bytes now (trimmed username) s (authenticate r bytes now username db)
  unfolding authenticate login_user normalize_username
  authenticate-issues (registers salt password) bytes now username db s h =
      let (issue, left) = register_user_issues trimmed q salt bytes now username password db s h in
      (_, issue, left)
  authenticate-issues (logs_in password) bytes now username db s h =
      let (db', issue, left) =
        login_row-issues bytes now (trimmed username) password (get (trimmed username) db.users)
          (tried db) s (ground arith) in
      (db', issue, ground arith)
  authenticate-issues (resumes removed checked token) bytes now username db s h =
      let r = remove_expired_session trimmed q removed (trimmed username) db in
      let row = resume_session-row bytes removed checked now username token db s h in
      subst (ThroughIssue bytes now (trimmed username) s) (sym row) (
        resume_row-issues bytes checked now (trimmed username) token
          (get (trimmed username) r.0.sessions) (tried r.0) s
          (sym (ap (λ (x : Database × Outcome). x.1) row) ∙ h))

  authenticate-Issued :
      (r : Request) (bytes : List ℕ) (now : ℕ) (username : String) (db : Database) (s : SessionInfo)
      → trimmed (trimmed username) ≡ trimmed username
      → (authenticate r bytes now username db).1 ≡ issued s
      → Issued bytes now username (authenticate r bytes now username db).0
  authenticate-Issued r bytes now username db s again h =
      let (db', issue, left) = authenticate-issues r bytes now username db s h in
      subst (Issued bytes now username) (sym left)
        (issue-Issued bytes now username db' s again issue)

  -- A resume against a known row, where no statement fails.
  resume_session_lem :
      (bytes : List ℕ) (removed checked now : ℕ) (username token : String) (row : SessionRow)
      (db : Database)
      → trimmed (trimmed username) ≡ trimmed username
      → removed ≤ checked
      → token ≢ ""
      → trimmed username ≢ ""
      → get (trimmed username) db.sessions ≡ some row
      → is_some (get (trimmed username) db.users) ≡ true
      → db.faults ≡ []
      → (resume_session trimmed q bytes removed checked now username token db).1 ≡ (
          if leb row.expires_at checked
          then refused "Session expired. Please sign in again."
          else if constant_time_equals
              (q.to_utf8 (hash_session_token q token))
              (q.to_utf8 row.token_hash)
          then issued (session_of trimmed q bytes now)
          else refused "Session invalid. Please sign in again.")
  unfolding resume_session resume_row remove_expired_session normalize_username
  resume_session_lem bytes removed checked now username token row db again order given full there
        user no_fault =
      let name = trimmed username in
      let issue =
        issue_session_succeeds trimmed q bytes now name (tried (tried db))
          (λ e. full (sym again ∙ e)) (unfold tried in rw again user)
          (unfold tried in ground (arith, no_fault)) in
      let removes = get-remove name name db.sessions in
      ground (
        arith,
        issue,
        eq_iff name "",
        eq_iff token "",
        eq_iff (trimmed name) "",
        eq_iff name name,
        removes,
      )

  -- After a registration, a login or a resume that got a session, and with no statement failing
  -- from then on, a resume with a token that is not empty depends on that last session alone:
  -- once a week has passed the session has expired; before, a new session is issued exactly if
  -- the hash of the token is, as constantTimeEquals compares them, the hash of the token that was
  -- issued last. Trimming twice is trimming once, and the clock does not go back within the
  -- resume.
  pub resume_session-authenticate :
      (r : Request) (bytes bytes' : List ℕ) (now removed checked later : ℕ)
      (username token : String) (db : Database) (s : SessionInfo)
      → ((text : String) → trimmed (trimmed text) ≡ trimmed text)
      → (authenticate r bytes now username db).1 ≡ issued s
      → (authenticate r bytes now username db).0.faults ≡ []
      → removed ≤ checked
      → token ≢ ""
      → (resume_session trimmed q bytes' removed checked later username token
          (authenticate r bytes now username db).0).1
        ≡ (if leb (now + session_lifetime_ms) checked
            then refused "Session expired. Please sign in again."
            else if constant_time_equals
                (q.to_utf8 (hash_session_token q token))
                (q.to_utf8 (hash_session_token q (session_token q bytes)))
            then issued (session_of trimmed q bytes' later)
            else refused "Session invalid. Please sign in again.")
  resume_session-authenticate r bytes bytes' now removed checked later username token db s again ok
        no_fault order given =
      let (row, user, full) = authenticate-Issued r bytes now username db s (again username) ok in
      resume_session_lem bytes' removed checked later username token (row_of trimmed q bytes now)
        (authenticate r bytes now username db).0 (again username) order given full row user no_fault

  -- A success has a user name.
  pub authenticate-named :
      (r : Request) (bytes : List ℕ) (now : ℕ) (username : String) (db : Database) (s : SessionInfo)
      → trimmed (trimmed username) ≡ trimmed username
      → (authenticate r bytes now username db).1 ≡ issued s
      → trimmed username ≢ ""
  authenticate-named r bytes now username db s again h =
      (authenticate-Issued r bytes now username db s again h).2
