-- ===== src/Shared/Retry/Sweep.antt =====
-- One pass of the retry loop, seen at each message.
use messenger_walkie_talkie.Prelude.{
  ℕ, String, ◌≡◌, refl, ap, ◌∙◌, inl, inr, Bool-cases, ◌&&◌, Bool, List, [], ◌∷◌, Option, none,
  some, arith, eq_iff, string_eq, ◌==◌, if◌then◌else◌, ltb, leb,
}
use messenger_walkie_talkie.Prelude.Dict.{get, IsDistinct}
use messenger_walkie_talkie.Shared.Json.{JsonObject}
use messenger_walkie_talkie.Shared.Retry.{
  Tracked, Pending, Verdict, keep, drop, resend, judge, Swept, settle, sweep, max_retries,
}

-- What a pass makes of a message that is pending or not.
abbrev after_verdict : Tracked → Verdict → Option Tracked
after_verdict tracked keep = some tracked
after_verdict tracked drop = none
after_verdict tracked (resend tracked') = some tracked'

abbrev pub judged : ℕ → Option Tracked → Option Tracked
judged now none = none
judged now (some tracked) = after_verdict tracked (judge now tracked)

get-settle :
    (id : String) (tracked : Tracked) (v : Verdict) (rest : Swept) (key : String)
    → get id rest.pending ≡ none
    → get key (settle id tracked v rest).pending
      ≡ (if id == key then after_verdict tracked v else get key rest.pending)
unfolding settle get
get-settle id tracked keep rest key h = refl
get-settle id tracked drop rest key h = ground (arith, eq_iff id key)
get-settle id tracked (resend t) rest key h = refl

-- In a hash, which has no key twice, a pass does to each message what `judge` says of it alone,
-- and a message that is not there stays away.
pub get-sweep :
    (now : ℕ) (pending : Pending) (key : String)
    → IsDistinct pending
    → get key (sweep now pending).pending ≡ judged now (get key pending)
unfolding sweep get
get-sweep now [] key d = refl
get-sweep now ((id, tracked) ∷ pending) key d =
    let gone : get id (sweep now pending).pending ≡ none =
      get-sweep now pending id d.1 ∙ ap (judged now) d.0 in
    get-settle id tracked (judge now tracked) (sweep now pending) key gone
    ∙ elim (Bool-cases (id == key)) [
      | inl same ↦ rw same
      | inr other ↦ rw other (get-sweep now pending key d.1)
    ]

settle-IsDistinct :
    (id : String) (tracked : Tracked) (v : Verdict) (rest : Swept)
    → get id rest.pending ≡ none
    → IsDistinct rest.pending
    → IsDistinct (settle id tracked v rest).pending
unfolding settle
settle-IsDistinct id tracked keep rest h d = (h, d)
settle-IsDistinct id tracked drop rest h d = d
settle-IsDistinct id tracked (resend t) rest h d = (h, d)

pub sweep-IsDistinct :
    (now : ℕ) (pending : Pending) → IsDistinct pending → IsDistinct (sweep now pending).pending
unfolding sweep
sweep-IsDistinct now [] d = tt
sweep-IsDistinct now ((id, tracked) ∷ pending) d =
    settle-IsDistinct id tracked (judge now tracked) (sweep now pending)
      (get-sweep now pending id d.1 ∙ ap (judged now) d.0) (sweep-IsDistinct now pending d.1)

-- Due, and with a retry left; due, and with none left.
abbrev pub resends : ℕ → Tracked → Bool
resends now t = leb t.retry_at_ms now && ltb t.retries max_retries

abbrev pub drops : ℕ → Tracked → Bool
drops now t = leb t.retry_at_ms now && leb max_retries t.retries

abbrev payloads_if : (Tracked → Bool) → Pending → List JsonObject
payloads_if p [] = []
payloads_if p ((id, t) ∷ m) = if p t then t.payload ∷ payloads_if p m else payloads_if p m

abbrev ids_if : (Tracked → Bool) → Pending → List String
ids_if p [] = []
ids_if p ((id, t) ∷ m) = if p t then id ∷ ids_if p m else ids_if p m

-- A pass resends exactly the due packets that have a retry left and drops exactly the due ones that
-- have none, in the order of the hash.
sweep_actions :
    (now : ℕ) (pending : Pending)
    → ((sweep now pending).resend_packets ≡ payloads_if (resends now) pending)
      × ((sweep now pending).dropped_message_ids ≡ ids_if (drops now) pending)
unfolding sweep
sweep_actions now [] = (refl, refl)
sweep_actions now ((id, t) ∷ pending) =
    (ground (arith, sweep_actions now pending), ground (arith, sweep_actions now pending))
