-- ===== src/Server/Sessions/Inverse.antt =====
-- The two maps of Server/server.cpp are inverse to each other.
use messenger_walkie_talkie.Prelude.{
  ℕ, String, ◌≡◌, ◌≢◌, ◌⊎◌, inl, inr, refl, sym, ap, ◌∙◌, subst, Bool-cases, Option-cases, false,
  Option, none, some, arith, eq_iff, eqb_iff, ◌==◌, string_eq, nat_eq,
}
use messenger_walkie_talkie.Prelude.Dict.{get, put, remove, get-put, get-remove, get-remove_self}
use messenger_walkie_talkie.Server.Sessions.{
  Sessions, no_sessions, username_for, can_start_authenticated_session, attach_free,
  attach_authenticated_session, unregister_connection, is_other, or_empty,
}

-- A connection has a user exactly if the user is online on that connection, and no user has the
-- empty name.
pub record IsInverse (s : Sessions) : Type 0 where
  pub to_user :
      (c : ℕ) (u : String) → get c s.connection_users ≡ some u → get u s.online_users ≡ some c
  to_connection :
      (c : ℕ) (u : String) → get u s.online_users ≡ some c → get c s.connection_users ≡ some u
  pub named : (c : ℕ) → get c s.connection_users ≢ some ""

pub no_sessions-IsInverse : IsInverse no_sessions
unfolding get
no_sessions-IsInverse = record {
  to_user = λ c u h. cc;
  to_connection = λ c u h. cc;
  named = λ c h. cc;
}

-- The laws that the proofs use, at one connection and one user.
module _ (c : ℕ) (u : String) (s : Sessions) where
  without : Sessions
  without = record {
    connection_users = remove c s.connection_users;
    online_users = remove u s.online_users;
  }

  without-IsInverse : get c s.connection_users ≡ some u → IsInverse s → IsInverse without
  unfolding without
  without-IsInverse h v = record {
    to_user = λ d w e. ground (
      arith,
      eqb_iff c d,
      eq_iff u w,
      get-remove c d s.connection_users,
      get-remove u w s.online_users,
      v.to_user d w,
      v.to_connection c u,
      v.to_connection d w,
      v.to_user c u,
      v.to_connection d u,
    );
    to_connection = λ d w e. ground (
      arith,
      eqb_iff c d,
      eq_iff u w,
      get-remove c d s.connection_users,
      get-remove u w s.online_users,
      v.to_user d w,
      v.to_connection c u,
      v.to_connection d w,
      v.to_user c u,
      v.to_connection c w,
    );
    named = λ d e. ground (arith, eqb_iff c d, get-remove c d s.connection_users, v.named d);
  }

  paired : Sessions
  paired = record {
    connection_users = put c u s.connection_users;
    online_users = put u c s.online_users;
  }

  -- Neither is taken by another.
  abbrev IsFree : Type 0
  IsFree =
      ((get c s.connection_users ≡ none) ⊎ (get c s.connection_users ≡ some u))
      × ((get u s.online_users ≡ none) ⊎ (get u s.online_users ≡ some c))

  paired-IsInverse : u ≢ "" → IsFree → IsInverse s → IsInverse paired
  unfolding paired
  paired-IsInverse full free v = record {
    to_user = λ d w e. ground (
      arith,
      eqb_iff c d,
      eq_iff u w,
      get-put c d u s.connection_users,
      get-put u w c s.online_users,
      v.to_user d w,
      v.to_connection d u,
      v.to_user d u,
    );
    to_connection = λ d w e. ground (
      arith,
      eqb_iff c d,
      eq_iff u w,
      get-put c d u s.connection_users,
      get-put u w c s.online_users,
      v.to_connection d w,
      v.to_user c w,
      v.to_connection c w,
    );
    named = λ d e. ground (arith, eqb_iff c d, get-put c d u s.connection_users, v.named d);
  }

or_empty-full : (o : Option String) (u : String) → or_empty o ≡ u → u ≢ "" → o ≡ some u
or_empty-full none u h full = absurd (full (sym h))
or_empty-full (some w) u h full = ap some h

is_other-cases : (c : ℕ) (o : Option ℕ) → is_other c o ≡ false → (o ≡ none) ⊎ (o ≡ some c)
is_other-cases c none h = inl refl
is_other-cases c (some d) h = inr (ground (arith, eqb_iff d c))

attach_free-IsInverse :
    (c : ℕ) (u : String) (gone : Option String) (s : Sessions)
    → u ≢ ""
    → ((get c s.connection_users ≡ none) ⊎ (get c s.connection_users ≡ some u))
    → IsInverse s
    → IsInverse (attach_free c u gone s).sessions
attach_free-IsInverse c u gone s full free v =
    elim (Bool-cases (is_other c (get u s.online_users))) [
      | inl taken ↦
          let e : (attach_free c u gone s).sessions ≡ s = unfold attach_free in rw taken in rw e v
      | inr open' ↦
          let e : (attach_free c u gone s).sessions ≡ paired c u s =
            unfold attach_free paired in rw open' in
          rw e (paired-IsInverse c u s full (free, is_other-cases c (get u s.online_users) open') v)
    ]

module _ (c : ℕ) (u : String) (s : Sessions) where
  -- The two ways through attachAuthenticatedSession: the connection changes its user, or not.
  attach-changes :
      username_for c s ≢ ""
      → username_for c s ≢ u
      → attach_authenticated_session c u s
        ≡ attach_free c u (some (username_for c s)) (without c (username_for c s) s)
  unfolding attach_authenticated_session without
  attach-changes full other =
      ground (arith, eq_iff (username_for c s) "", eq_iff (username_for c s) u)

  attach-stays :
      ((username_for c s ≡ "") ⊎ (username_for c s ≡ u))
      → attach_authenticated_session c u s ≡ attach_free c u none s
  unfolding attach_authenticated_session
  attach-stays same = ground (arith, eq_iff (username_for c s) "", eq_iff (username_for c s) u)

  way :
      (username_for c s ≡ "")
      ⊎ (username_for c s ≡ u)
      ⊎ ((username_for c s ≢ "") × (username_for c s ≢ u))
  way = elim (Bool-cases (username_for c s == "")) [
    | inl e ↦ inl ((eq_iff (username_for c s) "").0 e)
    | inr ne ↦ elim (Bool-cases (username_for c s == u)) [
      | inl e ↦ inr (inl ((eq_iff (username_for c s) u).0 e))
      | inr ne' ↦ inr (
          inr (
            ground (arith, eq_iff (username_for c s) ""),
            ground (arith, eq_iff (username_for c s) u),
          ))
    ]
  ]

module _ (c : ℕ) (s : Sessions) (v : IsInverse s) where
  user_of : username_for c s ≢ "" → get c s.connection_users ≡ some (username_for c s)
  unfolding username_for
  user_of full =
      or_empty-full (get c s.connection_users) (or_empty (get c s.connection_users)) refl full

  no_user : username_for c s ≡ "" → get c s.connection_users ≡ none
  unfolding username_for
  no_user e = elim (Option-cases (get c s.connection_users)) [
    | inl h ↦ h
    | inr (w, h) ↦ absurd (v.named c (h ∙ ap some (sym (ap or_empty h) ∙ e)))
  ]

  absent-IsInverse :
      get c s.connection_users ≡ none
      → IsInverse (record s { connection_users = remove c s.connection_users })
  absent-IsInverse h = record {
    to_user =
        λ d w e. ground (arith, eqb_iff c d, get-remove c d s.connection_users, v.to_user d w);
    to_connection = λ d w e.
        ground (arith, eqb_iff c d, get-remove c d s.connection_users, v.to_connection d w);
    named = λ d e. ground (arith, eqb_iff c d, get-remove c d s.connection_users, v.named d);
  }

  nobody_unnamed : get "" s.online_users ≡ none
  nobody_unnamed = elim (Option-cases (get "" s.online_users)) [
    | inl h ↦ h
    | inr (d, h) ↦ absurd (v.named d (v.to_connection d "" h))
  ]

  unregister-username : username_for c (unregister_connection c s) ≡ ""
  unfolding unregister_connection
  unregister-username = rw (get-remove_self c s.connection_users)

  -- In inverse maps, unregistering a connection leaves inverse maps, in which its user is offline
  -- and it has no user.
  pub unregister-IsInverse :
      IsInverse (unregister_connection c s)
      × (get (username_for c s) (unregister_connection c s).online_users ≡ none)
      × (username_for c (unregister_connection c s) ≡ "")
  unregister-IsInverse = elim (Bool-cases (username_for c s == "")) [
    | inl e ↦
        let none_there = no_user ((eq_iff (username_for c s) "").0 e) in
        (
          unfold unregister_connection in rw e (absent-IsInverse none_there),
          unfold unregister_connection in rw (e, (eq_iff (username_for c s) "").0 e) nobody_unnamed,
          unregister-username,
        )
    | inr ne ↦
        let there = user_of (λ h. ground (arith, eq_iff (username_for c s) "")) in
        (
          unfold unregister_connection in
              rw ne (unfold without in without-IsInverse c (username_for c s) s there v),
          unfold unregister_connection in rw ne (get-remove_self (username_for c s) s.online_users),
          unregister-username,
        )
  ]

module _ (c : ℕ) (u : String) (s : Sessions) (v : IsInverse s) where
  -- In inverse maps, attaching a user with a name to a connection leaves inverse maps, whether the
  -- attempt succeeds or fails.
  pub attach-IsInverse : u ≢ "" → IsInverse (attach_authenticated_session c u s).sessions
  attach-IsInverse full = elim (way c u s) [
    | inl e ↦
        rw (attach-stays c u s (inl e))
          (attach_free-IsInverse c u none s full (inl (no_user c s v e)) v)
    | inr (inl e) ↦ rw (attach-stays c u s (inr e)) (
        attach_free-IsInverse c u none s full
          (inr (
            subst (λ w. get c s.connection_users ≡ some w) e
              (user_of c s v (λ h. full (sym e ∙ h)))))
          v)
    | inr (inr (named, other)) ↦ rw (attach-changes c u s named other) (
        attach_free-IsInverse c u (some (username_for c s)) (without c (username_for c s) s) full
          (inl (unfold without in get-remove_self c s.connection_users))
          (without-IsInverse c (username_for c s) s (user_of c s v named) v))
  ]

  -- In inverse maps, the check that the handlers make before they ask the storage decides whether
  -- attaching succeeds.
  is_attached-can_start :
      (attach_authenticated_session c u s).is_attached ≡ can_start_authenticated_session c u s
  is_attached-can_start = elim (way c u s) [
    | inl e ↦ rw (attach-stays c u s (inl e)) (
        unfold attach_free can_start_authenticated_session in
        ground (arith, eq_iff (username_for c s) ""))
    | inr (inl e) ↦ rw (attach-stays c u s (inr e)) (
        unfold attach_free can_start_authenticated_session in
        ground (
          arith,
          eq_iff (username_for c s) "",
          eq_iff (username_for c s) u,
          user_of c s v,
          v.to_user c u,
          eqb_iff c c,
        ))
    | inr (inr (named, other)) ↦ rw (attach-changes c u s named other) (
        unfold attach_free can_start_authenticated_session without in
        ground (
          arith,
          eq_iff (username_for c s) "",
          eq_iff (username_for c s) u,
          get-remove (username_for c s) u s.online_users,
        ))
  ]
