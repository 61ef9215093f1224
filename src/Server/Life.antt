-- ===== src/Server/Life.antt =====
-- Server/server.cpp: start, setDatabasePath, stop and onNewConnection, with what Server/worker.cpp does
-- at the end. A worker and a socket are numbers; a worker's number is its place in m_workers. What the
-- storage, the listening socket and QThread answer are arguments. A QTcpServer that is closed has no
-- pending connection, and one that listens already does not listen anew. m_nextWorkerIndex is an int:
-- past its largest value the code means nothing, and here the hand-over is `none`.
pub mod Handover
use messenger_walkie_talkie.Prelude.{
  ℕ, zero, suc, ◌+◌, ◌%◌, ◌^◌, max, String, Bool, true, false, not, ◌&&◌, ◌||◌, List, [], ◌∷◌, ◌++◌,
  Option, none, some, if◌then◌else◌, is_empty, ltb,
}
use messenger_walkie_talkie.Server.Sessions.{Sessions, no_sessions}

pub record Server : Type 0 where
  pub is_listening : Bool
  pub workers : ℕ
  pub next_worker_index : ℕ
  pub sessions : Sessions
  pub stopped : Bool
  pub database_path : String

abbrev pub idle : Server
idle = record {
  is_listening = false;
  workers = 0;
  next_worker_index = 0;
  sessions = no_sessions;
  stopped = false;
  database_path = "users.db";
}

-- The answers to one call of start: of ServerStorage::init, QThread::idealThreadCount and listen.
pub record Answers : Type 0 where
  pub opens_storage : Bool
  pub ideal_thread_count : ℕ
  pub listens : Bool

unfoldable pub start : Answers → Server → Server × Bool
start answers s =
    let ok = answers.listens && not s.is_listening in
    let ready : Server = record s {
      workers = s.workers + max 2 answers.ideal_thread_count;
      is_listening = s.is_listening || ok;
    } in
    if not answers.opens_storage then (s, false) else (ready, ok)

unfoldable pub set_database_path : (String → String) → String → Server → Server
set_database_path trimmed path s =
    if s.is_listening
    then s
    else record s { database_path = if is_empty (trimmed path) then "users.db" else trimmed path }

-- The workers end their connections and their threads.
unfoldable pub stop : Server → Server
stop s =
    if s.stopped
    then s
    else record s { stopped = true; is_listening = false; workers = 0; sessions = no_sessions }

-- m_workers.at(m_nextWorkerIndex % m_workers.size())
abbrev pub worker_index : ℕ → ℕ → Option ℕ
worker_index index workers =
    if ltb 0 workers && ltb index (2 ^ 31) then some (index % workers) else none

-- The loop over the pending connections, where a null socket is passed over; each hand-over is that of
-- a socket to a worker.
unfoldable pub hand_over : List (Option ℕ) → Server → Server × List (ℕ × Option ℕ)
hand_over [] s = (s, [])
hand_over (none ∷ sockets) s = hand_over sockets s
hand_over (some socket ∷ sockets) s =
    let next : Server = record s { next_worker_index = s.next_worker_index + 1 } in
    let rest = hand_over sockets next in
    (rest.0, (socket, worker_index s.next_worker_index s.workers) ∷ rest.1)

unfoldable pub on_new_connection : List (Option ℕ) → Server → Server × List (ℕ × Option ℕ)
unfolding hand_over
on_new_connection sockets s = if s.is_listening then hand_over sockets s else (s, [])
