-- ===== src/Server/RateLimiter.antt =====
-- Server/ratelimiter.h and Server/ratelimiter.cpp: fixed windows of hits, one for each key.
-- Times are milliseconds of the epoch; a limit that is not positive is 0 here.
pub mod Entries
pub mod Window
use messenger_walkie_talkie.Prelude.{
  ℕ, suc, ◌+◌, ◌-◌, ◌*◌, max, String, Bool, true, false, ◌||◌, List, [], ◌∷◌, Option, none, some,
  ltb, leb, eqb, if◌then◌else◌, is_empty, length, string_eq,
}
use messenger_walkie_talkie.Prelude.Dict.{get, put}

abbrev prune_threshold : ℕ
prune_threshold = 512

abbrev pub stale_after_ms : ℕ
stale_after_ms = 10 * 60 * 1000

pub record Rule : Type 0 where
  pub max_hits : ℕ
  pub window_ms : ℕ

pub record Decision : Type 0 where
  pub allowed : Bool
  remaining_hits : ℕ
  pub retry_after_ms : ℕ

abbrev default_decision : Decision
default_decision = record { allowed = true; remaining_hits = 0; retry_after_ms = 0 }

pub record Entry : Type 0 where
  pub hits : ℕ
  pub window_started_at_ms : ℕ
  pub last_seen_at_ms : ℕ

abbrev empty_entry : Entry
empty_entry = record { hits = 0; window_started_at_ms = 0; last_seen_at_ms = 0 }

abbrev pub Entries : Type 0
Entries = List (String × Entry)

-- The test of pruneExpiredEntries.
unfoldable pub is_stale : ℕ → Entry → Bool
is_stale now entry = eqb entry.last_seen_at_ms 0 || ltb stale_after_ms (now - entry.last_seen_at_ms)

unfoldable pub prune_expired_entries : ℕ → Entries → Entries
prune_expired_entries now [] = []
prune_expired_entries now ((key, entry) ∷ entries) =
    let rest = prune_expired_entries now entries in
    if is_stale now entry then rest else (key, entry) ∷ rest

-- m_entries[key]: an entry that is not there yet is made.
abbrev pub or_empty : Option Entry → Entry
or_empty none = empty_entry
or_empty (some entry) = entry

-- What `allow` does to the entry of its key. A clock that has gone back leaves the window open.
unfoldable pub hit : Entry → Rule → ℕ → Entry × Decision
hit entry rule now =
    if eqb entry.window_started_at_ms 0 || leb rule.window_ms (now - entry.window_started_at_ms)
    then (
      record { hits = 1; window_started_at_ms = now; last_seen_at_ms = now },
      record default_decision { remaining_hits = rule.max_hits - 1 },
    )
    else if leb rule.max_hits entry.hits
    then (
      record entry { last_seen_at_ms = now },
      record {
        allowed = false;
        remaining_hits = 0;
        retry_after_ms = max 1 (rule.window_ms + entry.window_started_at_ms - now);
      },
    )
    else (
      record entry { hits = entry.hits + 1; last_seen_at_ms = now },
      record default_decision { remaining_hits = rule.max_hits - (entry.hits + 1) },
    )

unfoldable pub prune_if_full : ℕ → Entries → Entries
prune_if_full now entries =
    if leb prune_threshold (length entries) then prune_expired_entries now entries else entries

-- RateLimiter::allow
unfoldable pub allow : String → Rule → ℕ → Entries → Entries × Decision
allow key rule now entries =
    if is_empty key || (eqb rule.max_hits 0 || eqb rule.window_ms 0)
    then (entries, default_decision)
    else let kept = prune_if_full now entries in
      let after = hit (or_empty (get key kept)) rule now in (put key after.0 kept, after.1)
