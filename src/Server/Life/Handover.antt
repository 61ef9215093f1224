-- ===== src/Server/Life/Handover.antt =====
-- The sockets that Server/server.cpp hands over to its workers, whatever happened before.
use native.Mathlib.Nat.{mod-lt}
use messenger_walkie_talkie.Prelude.{
  ℕ, ◌+◌, ◌%◌, ◌^◌, ◌≤◌, ◌<◌, String, ◌≡◌, refl, ap, true, List, [], ◌∷◌, Option, none, some, map,
  length, arith,
}
use messenger_walkie_talkie.Server.Life.{
  Server, Answers, idle, start, set_database_path, stop, hand_over, on_new_connection,
}

pub data Event : Type 0 where
  starts : Answers → Event
  sets_path : String → Event
  stops : Event
  connects : List (Option ℕ) → Event

module _ (trimmed : String → String) where
  unfoldable pub happen : Event → Server → Server
  happen (starts answers) s = (start answers s).0
  happen (sets_path path) s = set_database_path trimmed path s
  happen stops s = stop s
  happen (connects sockets) s = (on_new_connection sockets s).0

  unfoldable pub run : List Event → Server → Server
  run [] s = s
  run (e ∷ es) s = run es (happen e s)

-- The sockets that have come, null ones included.
abbrev arrived : Event → ℕ
arrived (connects sockets) = length sockets
arrived e = 0

abbrev pub arrivals : List Event → ℕ
arrivals [] = 0
arrivals (e ∷ es) = arrived e + arrivals es

abbrev pub present : List (Option ℕ) → List ℕ
present [] = []
present (none ∷ sockets) = present sockets
present (some socket ∷ sockets) = socket ∷ present sockets

abbrev pub HasWorker : ℕ → List (ℕ × Option ℕ) → Type 0
HasWorker workers [] = Unit
HasWorker workers ((socket, place) ∷ rest) =
    ((worker : ℕ) × (place ≡ some worker) × (worker < workers)) × HasWorker workers rest

record IsServing (s : Server) (room : ℕ) : Type 0 where
  has_workers : s.is_listening ≡ true → 2 ≤ s.workers
  has_room : s.next_worker_index + room ≤ 2 ^ 31

hand_over-workers :
    (sockets : List (Option ℕ)) (s : Server)
    → ((hand_over sockets s).0.is_listening ≡ s.is_listening)
      × ((hand_over sockets s).0.workers ≡ s.workers)
      × ((hand_over sockets s).0.next_worker_index ≤ s.next_worker_index + length sockets)
unfolding hand_over
hand_over-workers [] s = (refl, refl, ground arith)
hand_over-workers (none ∷ sockets) s =
    let rest = hand_over-workers sockets s in ground (arith, rest)
hand_over-workers (some socket ∷ sockets) s =
    let rest =
      hand_over-workers sockets (record s { next_worker_index = s.next_worker_index + 1 }) in
    ground (arith, rest)

hand_over-HasWorker :
    (sockets : List (Option ℕ)) (s : Server)
    → 2 ≤ s.workers
    → s.next_worker_index + length sockets ≤ 2 ^ 31
    → (map (λ (h : ℕ × Option ℕ). h.0) (hand_over sockets s).1 ≡ present sockets)
      × HasWorker s.workers (hand_over sockets s).1
unfolding hand_over
hand_over-HasWorker [] s some_workers room = (refl, tt)
hand_over-HasWorker (none ∷ sockets) s some_workers room =
    hand_over-HasWorker sockets s some_workers (ground (arith, room))
hand_over-HasWorker (some socket ∷ sockets) s some_workers room =
    let next : Server = record s { next_worker_index = s.next_worker_index + 1 } in
    let rest = hand_over-HasWorker sockets next some_workers (ground (arith, room)) in
    (
      ap (◌∷◌ socket) rest.0,
      (
        (
          s.next_worker_index % s.workers,
          ground (arith, some_workers, room),
          mod-lt s.next_worker_index (ground (arith, some_workers)),
        ),
        rest.1,
      ),
    )

happen-IsServing :
    (trimmed : String → String) (e : Event) (s : Server) (room : ℕ)
    → IsServing s (arrived e + room)
    → IsServing (happen trimmed e s) room
unfolding happen start set_database_path stop on_new_connection
happen-IsServing trimmed (starts answers) s room v = record {
  has_workers = λ h. ground (arith, v.has_workers, h);
  has_room = ground (arith, v.has_room);
}
happen-IsServing trimmed (sets_path path) s room v = record {
  has_workers = λ h. ground (arith, v.has_workers, h);
  has_room = ground (arith, v.has_room);
}
happen-IsServing trimmed stops s room v = record {
  has_workers = λ h. ground (arith, v.has_workers, h);
  has_room = ground (arith, v.has_room);
}
happen-IsServing trimmed (connects sockets) s room v =
    let same = hand_over-workers sockets s in
    record {
      has_workers = λ h. ground (arith, v.has_workers, h, same);
      has_room = ground (arith, v.has_room, same);
    }

run-IsServing :
    (trimmed : String → String) (es : List Event) (s : Server) (room : ℕ)
    → IsServing s (arrivals es + room)
    → IsServing (run trimmed es s) room
unfolding run
run-IsServing trimmed [] s room v = record {
  has_workers = v.has_workers;
  has_room = ground (arith, v.has_room);
}
run-IsServing trimmed (e ∷ es) s room v = run-IsServing trimmed es (happen trimmed e s) room (
    happen-IsServing trimmed e s (arrivals es + room)
      (record { has_workers = v.has_workers; has_room = ground (arith, v.has_room) }))

-- After any starts, stops, changes of the path and earlier connections, a server that listens hands each of the
-- sockets that wait, null ones left out, over once, in their order, to a worker that it has, as long as fewer than
-- 2^31 sockets have come since the program began, null ones and those that wait counted in.
pub hand_over_all :
    (trimmed : String → String) (es : List Event) (sockets : List (Option ℕ))
    → (run trimmed es idle).is_listening ≡ true
    → arrivals es + length sockets < 2 ^ 31
    → (map (λ (h : ℕ × Option ℕ). h.0) (on_new_connection sockets (run trimmed es idle)).1
        ≡ present sockets)
      × HasWorker (run trimmed es idle).workers (on_new_connection sockets (run trimmed es idle)).1
unfolding on_new_connection run
hand_over_all trimmed es sockets listens room =
    let s = run trimmed es idle in
    let v =
      run-IsServing trimmed es idle (length sockets)
        (record { has_workers = λ h. ground (arith, h); has_room = ground (arith, room) }) in
    rw listens (hand_over-HasWorker sockets s (v.has_workers listens) v.has_room)
