-- ===== src/Server/RateLimiter/Window.antt =====
-- How many calls RateLimiter::allow lets through while one window of a key is open, whatever the
-- calls of other keys between them and whatever is pruned.
use messenger_walkie_talkie.Prelude.{
  ℕ, suc, ◌+◌, ◌-◌, ◌≤◌, ◌<◌, min, String, ◌≡◌, ◌≢◌, ◌⊎◌, ap₂, ◌∙◌, inl, inr, Bool, false, List, [],
  ◌∷◌, some, arith, eq_iff, string_eq, ◌==◌, ◌&&◌, if◌then◌else◌, Bool-cases, All,
}
use messenger_walkie_talkie.Prelude.Dict.{get}
use messenger_walkie_talkie.Server.RateLimiter.{
  Rule, Entry, Entries, is_stale, prune_if_full, or_empty, hit, allow, stale_after_ms,
}
use messenger_walkie_talkie.Server.RateLimiter.Entries.{
  IsActive, allow-hit, get-allow, get-prune_if_full,
}

pub record Call : Type 0 where
  pub key : String
  pub rule : Rule
  pub now : ℕ

abbrev count_if : Bool → ℕ → ℕ
count_if b n = if b then suc n else n

-- The calls of a key among `calls`, and how many of them are allowed from `entries` on.
abbrev pub calls_of : String → List Call → ℕ
calls_of key [] = 0
calls_of key (c ∷ cs) = count_if (c.key == key) (calls_of key cs)

unfoldable pub allowed_of : String → Entries → List Call → ℕ
allowed_of key entries [] = 0
allowed_of key entries (c ∷ cs) =
    let r = allow c.key c.rule c.now entries in
    count_if (c.key == key && r.1.allowed) (allowed_of key r.0 cs)

-- The call is of some active rule, falls into the window of `rule` that opened at `start`, and is of
-- `rule` if it is of `key`.
abbrev InWindow : String → Rule → ℕ → Call → Type 0
InWindow key rule start c =
    (c.key ≢ "")
    × IsActive c.rule
    × (start ≤ c.now)
    × (c.now < start + rule.window_ms)
    × (((c.key == key) ≡ false) ⊎ (c.rule ≡ rule))

-- The entry's window opened at `start`, its hits are within the limit, and the window is shorter
-- than the time after which entries are pruned.
abbrev IsOpen : Rule → ℕ → Entry → Type 0
IsOpen rule start entry =
    (0 < start)
    × (entry.window_started_at_ms ≡ start)
    × (start ≤ entry.last_seen_at_ms)
    × (entry.hits ≤ rule.max_hits)
    × (rule.window_ms ≤ stale_after_ms)

hit-IsOpen :
    (entry : Entry) (rule : Rule) (start now : ℕ)
    → IsOpen rule start entry
    → start ≤ now
    → now < start + rule.window_ms
    → IsOpen rule start (hit entry rule now).0
      × ((n : ℕ)
          → count_if
              (hit entry rule now).1.allowed
              (min (rule.max_hits - (hit entry rule now).0.hits) n)
            ≡ min (rule.max_hits - entry.hits) (suc n))
unfolding hit
hit-IsOpen entry rule start now open' after before =
    ((ground arith, ground arith, ground arith, ground arith, ground arith), λ n. ground arith)

not_stale :
    (entry : Entry) (rule : Rule) (start now : ℕ)
    → IsOpen rule start entry
    → now < start + rule.window_ms
    → is_stale now entry ≡ false
unfolding is_stale
not_stale entry rule start now open' before = ground arith

-- While the window of a key's entry is open, a run of calls for any keys allows of the key's
-- calls as many as there are, but no more than the limit has left, whatever is pruned. All calls
-- fall into that window and have keys and active rules, those for the key have its rule, the
-- window is at most ten minutes long, and the hits so far are within the limit.
pub allowed-InWindow :
    (key : String) (rule : Rule) (start : ℕ) (entry : Entry) (entries : Entries) (calls : List Call)
    → get key entries ≡ some entry
    → IsOpen rule start entry
    → All (InWindow key rule start) calls
    → allowed_of key entries calls ≡ min (rule.max_hits - entry.hits) (calls_of key calls)
unfolding allowed_of
allowed-InWindow key rule start entry entries [] there open' within = omega arith
allowed-InWindow key rule start entry entries (c ∷ cs) there open' (c_in, within) =
    let after = (allow c.key c.rule c.now entries).0 in
    let kept =
      get-prune_if_full c.now key entry entries there
        (not_stale entry rule start c.now open' c_in.3) in
    let next = get-allow c.key c.rule c.now entries key c_in.0 c_in.1 in
    elim (Bool-cases (c.key == key)) [
      | inl same ↦
          let k : c.key ≡ key = (eq_iff c.key key).0 same in
          let (stays, count) = hit-IsOpen entry rule start c.now open' c_in.2 c_in.3 in
          let r : c.rule ≡ rule = ground arith in
          let e : or_empty (get c.key (prune_if_full c.now entries)) ≡ entry = rw (k, kept) in
          let first : (allow c.key c.rule c.now entries).1 ≡ (hit entry rule c.now).1 =
            allow-hit c.key c.rule c.now entries c_in.0 c_in.1
            ∙ ap₂ (λ (x : Entry) (y : Rule). (hit x y c.now).1) e r in
          let there' : get key after ≡ some (hit entry rule c.now).0 =
            next ∙ rw same (ap₂ (λ (x : Entry) (y : Rule). some (hit x y c.now).0) e r) in
          let rest =
            allowed-InWindow key rule start (hit entry rule c.now).0 after cs there' stays within in
          rw (same, first, rest) (count (calls_of key cs))
      | inr other ↦
          let there' : get key after ≡ some entry = next ∙ rw other kept in
          rw other (allowed-InWindow key rule start entry after cs there' open' within)
    ]
