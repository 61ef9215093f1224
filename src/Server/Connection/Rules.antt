-- ===== src/Server/Connection/Rules.antt =====
-- Induction over the events of a connection and over the arrivals of one readyRead: a relation
-- between the states before and after and the effects between them holds of a whole run if it holds
-- of nothing, of two steps one after the other, and of each step.
use messenger_walkie_talkie.Prelude.{ℕ, List, [], ◌∷◌, ◌++◌}
use messenger_walkie_talkie.Shared.Frame.{JsonCodec}
use messenger_walkie_talkie.Shared.ReadLoop.{Arrival}
use messenger_walkie_talkie.Server.Connection.{
  Connection, Effect, Event, on_arrival, on_arrivals, handle, run,
}

module _ (P : Connection → List Effect → Connection → Type 0)
    (none_rule : (c : Connection) → P c [] c)
    (then_rule : (c d e : Connection) (xs ys : List Effect)
      → P c xs d
      → P d ys e
      → P c (xs ++ ys) e) where
  pub on_arrivals_rule :
      (now : ℕ) (arrivals : List Arrival) (c : Connection)
      → ((a : Arrival) (d : Connection) → P d (on_arrival now a d).1 (on_arrival now a d).0)
      → P c (on_arrivals now arrivals c).1 (on_arrivals now arrivals c).0
  unfolding on_arrivals
  on_arrivals_rule now [] c step = none_rule c
  on_arrivals_rule now (a ∷ rest) c step =
      then_rule c (on_arrival now a c).0 (on_arrivals now rest (on_arrival now a c).0).0
        (on_arrival now a c).1 (on_arrivals now rest (on_arrival now a c).0).1 (step a c)
        (on_arrivals_rule now rest (on_arrival now a c).0 step)

  pub run_rule :
      (codec : JsonCodec) (events : List Event) (c : Connection)
      → ((e : Event) (d : Connection) → P d (handle codec e d).1 (handle codec e d).0)
      → P c (run codec events c).1 (run codec events c).0
  unfolding run
  run_rule codec [] c step = none_rule c
  run_rule codec (e ∷ events) c step =
      then_rule c (handle codec e c).0 (run codec events (handle codec e c).0).0
        (handle codec e c).1 (run codec events (handle codec e c).0).1 (step e c)
        (run_rule codec events (handle codec e c).0 step)
