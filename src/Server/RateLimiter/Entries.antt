-- ===== src/Server/RateLimiter/Entries.antt =====
-- What a call of RateLimiter::allow leaves of each entry, and what it decides.
use messenger_walkie_talkie.Prelude.{
  ℕ, ◌+◌, ◌≤◌, ◌<◌, String, ◌≡◌, ◌≢◌, sym, ap, ◌∙◌, leb, false, [], ◌∷◌, some, arith, eq_iff,
  string_eq, ◌==◌, if◌then◌else◌,
}
use messenger_walkie_talkie.Prelude.Dict.{get, get-put}
use messenger_walkie_talkie.Server.RateLimiter.{
  Rule, Decision, Entry, Entries, is_stale, prune_expired_entries, prune_if_full, or_empty, hit,
  allow, stale_after_ms,
}

-- Pruning keeps an entry that is not stale.
get-prune_expired_entries :
    (now : ℕ) (key : String) (entry : Entry) (entries : Entries)
    → get key entries ≡ some entry
    → is_stale now entry ≡ false
    → get key (prune_expired_entries now entries) ≡ some entry
unfolding get prune_expired_entries
get-prune_expired_entries now key entry [] h fresh = cc
get-prune_expired_entries now key entry ((j, e) ∷ entries) h fresh =
    ground (arith, eq_iff j key, get-prune_expired_entries now key entry entries)

pub get-prune_if_full :
    (now : ℕ) (key : String) (entry : Entry) (entries : Entries)
    → get key entries ≡ some entry
    → is_stale now entry ≡ false
    → get key (prune_if_full now entries) ≡ some entry
unfolding prune_if_full
get-prune_if_full now key entry entries h fresh =
    ground (arith, get-prune_expired_entries now key entry entries)

abbrev pub IsActive : Rule → Type 0
IsActive rule = (0 < rule.max_hits) × (0 < rule.window_ms)

module _ (key : String) (rule : Rule) (now : ℕ) (entries : Entries) where
  -- A call under an active rule is a `hit` of the key's entry, and writes no other.
  pub allow-hit :
      key ≢ ""
      → IsActive rule
      → (allow key rule now entries).1
        ≡ (hit (or_empty (get key (prune_if_full now entries))) rule now).1
  unfolding allow
  allow-hit named active = ground (arith, eq_iff key "")

  pub get-allow :
      (j : String)
      → key ≢ ""
      → IsActive rule
      → get j (allow key rule now entries).0 ≡ (
          if key == j
          then some (hit (or_empty (get key (prune_if_full now entries))) rule now).0
          else get j (prune_if_full now entries))
  unfolding allow
  get-allow j named active = ground (
    arith,
    eq_iff key "",
    get-put key j (hit (or_empty (get key (prune_if_full now entries))) rule now).0
        (prune_if_full now entries),
  )

hit_refuses :
    (entry : Entry) (rule : Rule) (now wait : ℕ)
    → IsActive rule
    → (hit entry rule now).1.allowed ≡ false
    → (0 < (hit entry rule now).1.retry_after_ms)
      × ((hit entry rule now).0.last_seen_at_ms ≡ now)
      × ((hit (hit entry rule now).0 rule (now + wait)).1.allowed
          ≡ leb (hit entry rule now).1.retry_after_ms wait)
unfolding hit
hit_refuses entry rule now wait active refused = (ground arith, ground arith, ground arith)

-- For a key that is not empty, an active rule and a clock after 0: if `allow` refuses a call and
-- asks for `r` ms, then `r` is positive, and the same call after a wait of at most ten minutes is
-- allowed exactly if the wait is at least `r`.
pub allow_retry_exact :
    (key : String) (rule : Rule) (now wait : ℕ) (entries : Entries)
    → key ≢ ""
    → IsActive rule
    → 0 < now
    → wait ≤ stale_after_ms
    → (allow key rule now entries).1.allowed ≡ false
    → (0 < (allow key rule now entries).1.retry_after_ms)
      × ((allow key rule (now + wait) (allow key rule now entries).0).1.allowed
          ≡ leb (allow key rule now entries).1.retry_after_ms wait)
allow_retry_exact key rule now wait entries named active late soon refused =
    let entry = or_empty (get key (prune_if_full now entries)) in
    let after = (allow key rule now entries).0 in
    let first = allow-hit key rule now entries named active in
    let (r, seen, again) =
      hit_refuses entry rule now wait active
        (ap (λ (d : Decision). d.allowed) (sym first) ∙ refused) in
    let there : get key after ≡ some (hit entry rule now).0 =
      ground (arith, get-allow key rule now entries key named active, eq_iff key key) in
    let fresh : is_stale (now + wait) (hit entry rule now).0 ≡ false =
      unfold is_stale in ground (arith, seen) in
    let kept = get-prune_if_full (now + wait) key (hit entry rule now).0 after there fresh in
    rw (first, allow-hit key rule (now + wait) after named active, kept) (r, again)
