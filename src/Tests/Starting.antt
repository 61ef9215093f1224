-- ===== src/Tests/Starting.antt =====
-- The start of the server and its first connections at concrete inputs.
use messenger_walkie_talkie.Prelude.{
  ℕ, String, ◌≡◌, refl, true, List, [], ◌∷◌, Option, none, some, map, arith,
}
use messenger_walkie_talkie.Server.Life.{Answers, idle, on_new_connection, set_database_path, start}
use messenger_walkie_talkie.Server.Life.Handover.{
  Event, starts, sets_path, connects, run, happen, HasWorker, hand_over_all,
}

abbrev as_is : String → String
as_is text = text

abbrev answers : Answers
answers = record { opens_storage = true; ideal_thread_count = 4; listens = true }

abbrev events : List Event
events = sets_path "chat.db" ∷ starts answers ∷ connects (some 1 ∷ some 2 ∷ []) ∷ []

abbrev sockets : List (Option ℕ)
sockets = some 3 ∷ none ∷ some 4 ∷ some 5 ∷ []

hand_over_all_example :
    (map (λ (h : ℕ × Option ℕ). h.0) (on_new_connection sockets (run as_is events idle)).1
      ≡ 3 ∷ 4 ∷ 5 ∷ [])
    × HasWorker
        (run as_is events idle).workers
        (on_new_connection sockets (run as_is events idle)).1
unfolding run happen start on_new_connection set_database_path
hand_over_all_example = hand_over_all as_is events sockets refl (omega arith)
