-- ===== src/Shared/Retry.antt =====
-- The retry of tracked packets, which Server/connection.cpp and Client/networktransportstate.cpp
-- both do over a QHash of pending packets; their structs have the same fields.
pub mod Sweep
pub mod Budget
use messenger_walkie_talkie.Prelude.{
  ℕ, ◌+◌, min, String, List, [], ◌∷◌, ltb, leb, if◌then◌else◌, get_or,
}
use messenger_walkie_talkie.Shared.Json.{JsonObject}

abbrev retry_schedule_ms : List ℕ
retry_schedule_ms = 2000 ∷ 4000 ∷ 8000 ∷ 16000 ∷ 32000 ∷ []

abbrev pub retry_delay : ℕ → ℕ
retry_delay i = get_or retry_schedule_ms i 0

abbrev pub max_retries : ℕ
max_retries = 5

pub record Tracked : Type 0 where
  pub payload : JsonObject
  pub retries : ℕ
  pub retry_at_ms : ℕ

abbrev pub Pending : Type 0
Pending = List (String × Tracked)

-- A packet that is tracked from `now` on.
unfoldable pub track : JsonObject → ℕ → Tracked
track packet now = record { payload = packet; retries = 0; retry_at_ms = now + retry_delay 0 }

pub data Verdict : Type 0 where
  keep drop : Verdict
  resend : Tracked → Verdict

-- What a turn of the loop decides of a packet.
unfoldable pub judge : ℕ → Tracked → Verdict
judge now tracked =
    if ltb now tracked.retry_at_ms
    then keep
    else if leb max_retries tracked.retries
    then drop
    else resend (record tracked {
      retries = tracked.retries + 1;
      retry_at_ms = now + retry_delay (min (tracked.retries + 1) 4);
    })

pub record Swept : Type 0 where
  pub pending : Pending
  pub resend_packets : List JsonObject
  pub dropped_message_ids : List String

unfoldable pub settle : String → Tracked → Verdict → Swept → Swept
settle id tracked keep rest = record rest { pending = (id, tracked) ∷ rest.pending }
settle id tracked drop rest = record rest { dropped_message_ids = id ∷ rest.dropped_message_ids }
settle id tracked (resend tracked') rest = record rest {
  pending = (id, tracked') ∷ rest.pending;
  resend_packets = tracked.payload ∷ rest.resend_packets;
}

-- The loop over the hash.
unfoldable pub sweep : ℕ → Pending → Swept
unfolding settle judge
sweep now [] = record { pending = []; resend_packets = []; dropped_message_ids = [] }
sweep now ((id, tracked) ∷ pending) = settle id tracked (judge now tracked) (sweep now pending)
