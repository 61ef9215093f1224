-- ===== src/Shared/Retry/Budget.antt =====
-- The life of a tracked packet that nobody acknowledges.
use messenger_walkie_talkie.Prelude.{
  ℕ, zero, suc, ◌+◌, ◌-◌, ◌≤◌, ◌<◌, String, ◌≡◌, ◌⊎◌, inl, inr, refl, ap, ◌∙◌, ltb_cases, min, Bool,
  List, [], ◌∷◌, ◌++◌, append-nil, none, arith, string_eq, if◌then◌else◌, length,
}
use messenger_walkie_talkie.Prelude.Dict.{get, put, IsDistinct}
use messenger_walkie_talkie.Shared.Json.{JsonObject}
use messenger_walkie_talkie.Shared.Retry.{
  Tracked, Pending, Verdict, keep, drop, resend, judge, settle, sweep, max_retries, track,
  retry_delay,
}
use messenger_walkie_talkie.Shared.Retry.Sweep.{judged, get-sweep, sweep-IsDistinct}

-- The passes of the timer at the given times, with no acknowledgement between them: what is pending
-- after them, and what they resend.
unfoldable pub passes : List ℕ → Pending → Pending
passes [] pending = pending
passes (now ∷ times) pending = passes times (sweep now pending).pending

unfoldable pub resent : List ℕ → Pending → List JsonObject
resent [] pending = []
resent (now ∷ times) pending =
    (sweep now pending).resend_packets ++ resent times (sweep now pending).pending

-- How many packets pass a test.
abbrev pub count : (JsonObject → Bool) → List JsonObject → ℕ
count test [] = 0
count test (packet ∷ packets) = (if test packet then 1 else 0) + count test packets

-- Each time is at least 32 s after the one before it, the first not before `due`.
abbrev Spaced : ℕ → List ℕ → Type 0
Spaced due [] = Unit
Spaced due (now ∷ times) = (due ≤ now) × Spaced (now + 32000) times

Spaced-mono : (a b : ℕ) (times : List ℕ) → a ≤ b → Spaced b times → Spaced a times
Spaced-mono a b [] h s = tt
Spaced-mono a b (now ∷ times) h s = (omega arith, s.1)

-- Two parts of a hash are swept each for itself.
settle-append :
    (now : ℕ) (id : String) (t : Tracked) (v : Verdict) (m n : Pending)
    → ((sweep now (m ++ n)).pending ≡ (sweep now m).pending ++ (sweep now n).pending)
      × ((sweep now (m ++ n)).resend_packets
          ≡ (sweep now m).resend_packets ++ (sweep now n).resend_packets)
    → ((settle id t v (sweep now (m ++ n))).pending
        ≡ (settle id t v (sweep now m)).pending ++ (sweep now n).pending)
      × ((settle id t v (sweep now (m ++ n))).resend_packets
          ≡ (settle id t v (sweep now m)).resend_packets ++ (sweep now n).resend_packets)
unfolding settle
settle-append now id t keep m n h = (ap (◌∷◌ (id, t)) h.0, h.1)
settle-append now id t drop m n h = h
settle-append now id t (resend t') m n h = (ap (◌∷◌ (id, t')) h.0, ap (◌∷◌ t.payload) h.1)

sweep-append :
    (now : ℕ) (m n : Pending)
    → ((sweep now (m ++ n)).pending ≡ (sweep now m).pending ++ (sweep now n).pending)
      × ((sweep now (m ++ n)).resend_packets
          ≡ (sweep now m).resend_packets ++ (sweep now n).resend_packets)
unfolding sweep
sweep-append now [] n = (refl, refl)
sweep-append now ((id, t) ∷ m) n = settle-append now id t (judge now t) m n (sweep-append now m n)

passes-append :
    (times : List ℕ) (m n : Pending) → passes times (m ++ n) ≡ passes times m ++ passes times n
unfolding passes
passes-append [] m n = refl
passes-append (now ∷ times) m n =
    ap (passes times) (sweep-append now m n).0
    ∙ passes-append times (sweep now m).pending (sweep now n).pending

count-append :
    (test : JsonObject → Bool) (a b : List JsonObject)
    → count test (a ++ b) ≡ count test a + count test b
count-append test [] b = omega arith
count-append test (packet ∷ a) b = omega (arith, count-append test a b)

count-resent :
    (test : JsonObject → Bool) (times : List ℕ) (m n : Pending)
    → count test (resent times (m ++ n)) ≡ count test (resent times m) + count test (resent times n)
unfolding resent
count-resent test [] m n = omega arith
count-resent test (now ∷ times) m n =
    let (next, out) = sweep-append now m n in
    let a = sweep now m in
    let b = sweep now n in
    rw (next, out)
      (omega (
        arith,
        count-append test (a.resend_packets ++ b.resend_packets)
            (resent times (a.pending ++ b.pending)),
        count-append test a.resend_packets b.resend_packets,
        count-append test a.resend_packets (resent times a.pending),
        count-append test b.resend_packets (resent times b.pending),
        count-resent test times a.pending b.pending,
      ))

retry_delay-le : (i : ℕ) → retry_delay i ≤ 32000
retry_delay-le zero = omega arith
retry_delay-le (suc zero) = omega arith
retry_delay-le (suc (suc zero)) = omega arith
retry_delay-le (suc (suc (suc zero))) = omega arith
retry_delay-le (suc (suc (suc (suc zero)))) = omega arith
retry_delay-le (suc (suc (suc (suc (suc i))))) = omega arith

-- A packet alone in the hash.
abbrev alone : String → Tracked → Pending
alone key t = (key, t) ∷ []

-- The three things that a pass may do to it.
alone_cases :
    (now : ℕ) (key : String) (t : Tracked)
    → ((now < t.retry_at_ms)
        × ((sweep now (alone key t)).pending ≡ alone key t)
        × ((sweep now (alone key t)).resend_packets ≡ []))
      ⊎ ((max_retries ≤ t.retries)
          × ((sweep now (alone key t)).pending ≡ [])
          × ((sweep now (alone key t)).resend_packets ≡ []))
      ⊎ ((t.retries < max_retries)
          × ((sweep now (alone key t)).resend_packets ≡ t.payload ∷ [])
          × (t' : Tracked) × ((sweep now (alone key t)).pending ≡ alone key t')
          × (t'.payload ≡ t.payload)
          × (t'.retries ≡ t.retries + 1)
          × (t'.retry_at_ms ≤ now + 32000))
unfolding sweep judge settle
alone_cases now key t = elim (ltb_cases now t.retry_at_ms) [
  | inl early ↦ inl (early, ground arith, ground arith)
  | inr due ↦ elim (ltb_cases t.retries max_retries) [
    | inl left ↦ inr (
        inr (
          left,
          ground arith,
          record t {
            retries = t.retries + 1;
            retry_at_ms = now + retry_delay (min (t.retries + 1) 4);
          },
          ground arith,
          refl,
          refl,
          delay (min (t.retries + 1) 4),
        ))
    | inr none_left ↦ inr (inl (none_left, ground arith, ground arith))
  ]
]
  where
    delay : (i : ℕ) → now + retry_delay i ≤ now + 32000
    delay i = omega (arith, retry_delay-le i)

nothing-passes : (times : List ℕ) → (passes times [] ≡ []) × (resent times [] ≡ [])
unfolding passes resent sweep
nothing-passes [] = (refl, refl)
nothing-passes (now ∷ times) = nothing-passes times

-- However the passes are spaced, they resend a packet no more often than it has retries left.
resent-le-max_retries :
    (times : List ℕ) (key : String) (t : Tracked)
    → t.retries ≤ max_retries
    → length (resent times (alone key t)) + t.retries ≤ max_retries
unfolding resent
resent-le-max_retries [] key t h = omega arith
resent-le-max_retries (now ∷ times) key t h = elim (alone_cases now key t) [
  | inl (early, same, out) ↦ rw (same, out) (resent-le-max_retries times key t h)
  | inr (inl (spent, gone, out)) ↦ rw (gone, out, (nothing-passes times).1) (omega arith)
  | inr (inr (left, out, t', next, same, more, soon)) ↦
      rw (next, out) (omega (arith, resent-le-max_retries times key t' (omega arith), more))
]

abbrev copies : ℕ → JsonObject → List JsonObject
copies zero packet = []
copies (suc n) packet = packet ∷ copies n packet

life_alone :
    (times : List ℕ) (key : String) (t : Tracked) (left : ℕ)
    → Spaced t.retry_at_ms times
    → left + t.retries ≡ max_retries
    → length times ≡ left + 1
    → (passes times (alone key t) ≡ []) × (resent times (alone key t) ≡ copies left t.payload)
unfolding passes resent
life_alone [] key t left s h l = absurd (omega arith)
life_alone (now ∷ times) key t left s h l = elim (alone_cases now key t) [
  | inl (early, same, out) ↦ absurd (omega arith)
  | inr (inl (spent, gone, out)) ↦
      let spent_left : left ≡ 0 = omega arith in rw (gone, out, spent_left) (nothing-passes times)
  | inr (inr (some_left, out, t', next, same, more, soon)) ↦
      let less = left - 1 in
      let one_more : suc less ≡ left = omega arith in
      let rest =
        life_alone times key t' less (Spaced-mono t'.retry_at_ms (now + 32000) times soon s.1)
          (omega arith) (omega arith) in
      rw (next, out)
        (
          rest.0,
          ap (◌∷◌ t.payload) (rest.1 ∙ ap (copies less) same)
              ∙ ap (λ n. copies n t.payload) one_more,
        )
]

put-append :
    (key : String) (t : Tracked) (pending : Pending)
    → get key pending ≡ none
    → put key t pending ≡ pending ++ alone key t
unfolding put get
put-append key t [] absent = refl
put-append key t ((id, u) ∷ pending) absent = ground (arith, put-append key t pending, absent)

get-append_nil : (key : String) (m : Pending) → get key (m ++ []) ≡ get key m
get-append_nil key m = ap (get key) (append-nil m)

get-passes-none :
    (key : String) (times : List ℕ) (pending : Pending)
    → IsDistinct pending
    → get key pending ≡ none
    → get key (passes times pending) ≡ none
unfolding passes
get-passes-none key [] pending d absent = absent
get-passes-none key (now ∷ times) pending d absent =
    get-passes-none key times (sweep now pending).pending (sweep-IsDistinct now pending d)
      (get-sweep now pending key d ∙ ap (judged now) absent)

count-copies :
    (test : JsonObject → Bool) (packet : JsonObject)
    → count test (copies 5 packet) ≡ (if test packet then 5 else 0)
count-copies test packet = ground arith

-- A packet that is tracked at `now` under a key that is not in the hash, which has no key twice, and
-- is never acknowledged, is given up at the sixth of six passes, where the first is at least 2 s after
-- `now` and each of the others at least 32 s after the one before it. What the passes resend is, for any test
-- of packets, what they resend without it and, where it passes the test, it five times.
pub track_life :
    (key : String) (times : List ℕ) (pending : Pending) (packet : JsonObject) (now : ℕ)
    → IsDistinct pending
    → get key pending ≡ none
    → Spaced (now + 2000) times
    → length times ≡ 6
    → (get key (passes times (put key (track packet now) pending)) ≡ none)
      × ((test : JsonObject → Bool)
          → count test (resent times (put key (track packet now) pending))
            ≡ count test (resent times pending) + (if test packet then 5 else 0))
unfolding track
track_life key times pending packet now d absent s l =
    let t = track packet now in
    let (gone, sent) = life_alone times key t 5 s (omega arith) (omega arith) in
    rw (put-append key t pending absent) (
      ap (get key)
            (passes-append times pending (alone key t) ∙ ap (◌++◌ (passes times pending)) gone)
          ∙ get-append_nil key (passes times pending)
          ∙ get-passes-none key times pending d absent,
      λ test.
          count-resent test times pending (alone key t)
          ∙ ap (λ xs. count test (resent times pending) + count test xs) sent
          ∙ ap (◌+◌ (count test (resent times pending))) (count-copies test packet),
    )
