-- ===== src/Agent/Replay/Once.antt =====
-- A session is accepted once before it expires.
use secure_pub_sub.Prelude.{
  ℕ, suc, ◌<◌, ◌≡◌, refl, sym, ap, true, false, List, [], ◌∷◌, Option, none, some, arith, length,
  ok, err, saturating_add, ==_refl, ℕ-Eq, List-Eq, ◌⊎◌, inl, inr, Bool-cases, Option-cases,
}
use secure_pub_sub.Protocol.Types.{AgentId, SessionId, replay, capacity}
use secure_pub_sub.Agent.Replay.{
  ReplayEntry, FixedReplayCache, expire, is_marked, occupy, check_and_mark,
}

-- The entry stands in the array.
abbrev pub Holds : ReplayEntry → List (Option ReplayEntry) → Type 0
Holds e [] = ⊥
Holds e (o ∷ rest) = (o ≡ some e) ⊎ Holds e rest

expire-Holds :
    (now : ℕ) (e : ReplayEntry) (entries : List (Option ReplayEntry))
    → now < e.expires_at
    → Holds e entries
    → Holds e (expire now entries)
unfolding expire
expire-Holds now e [] l h = h
expire-Holds now e (none ∷ rest) l (inl h) = absurd (cc)
expire-Holds now e (none ∷ rest) l (inr h) = inr (expire-Holds now e rest l h)
expire-Holds now e (some x ∷ rest) l (inr h) = inr (expire-Holds now e rest l h)
expire-Holds now e (some x ∷ rest) l (inl h) = inl (ground arith)

Holds-is_marked :
    (e : ReplayEntry) (entries : List (Option ReplayEntry))
    → Holds e entries
    → is_marked e.sender e.session entries ≡ true
unfolding is_marked
Holds-is_marked e [] h = absurd h
Holds-is_marked e (none ∷ rest) (inl h) = absurd (cc)
Holds-is_marked e (none ∷ rest) (inr h) = Holds-is_marked e rest h
Holds-is_marked e (some x ∷ rest) (inl h) =
    let same : x ≡ e = ground arith in ground (arith, same, ==_refl e.sender, ==_refl e.session)
Holds-is_marked e (some x ∷ rest) (inr h) = ground (arith, Holds-is_marked e rest h)

-- The new entry stands in the array, and so do those that stood there; the length is the same.
occupy-Holds :
    (new e : ReplayEntry) (entries entries' : List (Option ReplayEntry))
    → occupy new entries ≡ some entries'
    → Holds new entries' × (Holds e entries → Holds e entries') × (length entries' ≡ length entries)
unfolding occupy
occupy-Holds new e [] entries' h = absurd (cc)
occupy-Holds new e (none ∷ rest) entries' h =
    let same : some new ∷ rest ≡ entries' = ground arith in
    rw (sym same) (inl refl, λ k. elim k [ inl c ↦ absurd (cc) | inr k' ↦ inr k' ], refl)
occupy-Holds new e (some x ∷ rest) entries' h = elim (Option-cases (occupy new rest)) [
  | inl n ↦ absurd (ground arith)
  | inr (rest', k) ↦
      let same : some x ∷ rest' ≡ entries' = ground arith in
      let (here, there, long) = occupy-Holds new e rest rest' k in
      rw (sym same) (inr here, λ j. elim j [ inl c ↦ inl c | inr j' ↦ inr (there j') ], ap suc long)
]

module _ (sender : AgentId) (session : SessionId) (now : ℕ) (c : FixedReplayCache) where
  abbrev pub accepted_entry : ReplayEntry
  accepted_entry = record {
    sender = sender;
    session = session;
    expires_at = saturating_add now c.ttl_seconds;
  }

  abbrev live : FixedReplayCache
  live = record c { entries = expire now c.entries }

  -- The three ways through the check.
  check-cases :
      ((is_marked sender session live.entries ≡ true)
        × (check_and_mark sender session now c ≡ (live, err replay)))
      ⊎ ((is_marked sender session live.entries ≡ false)
          × (check_and_mark sender session now c ≡ (live, err capacity)))
      ⊎ ((is_marked sender session live.entries ≡ false)
          × (entries : List (Option ReplayEntry)) × (occupy accepted_entry live.entries
              ≡ some entries)
          × (check_and_mark sender session now c ≡ (record c { entries = entries }, ok tt)))
  unfolding check_and_mark
  check-cases = elim (Bool-cases (is_marked sender session live.entries)) [
    | inl t ↦ inl (t, rw (check_and_mark, t) refl)
    | inr f ↦ elim (Option-cases (occupy accepted_entry live.entries)) [
      | inl n ↦ inr (inl (f, rw (check_and_mark, f, n) refl))
      | inr (entries, k) ↦ inr (inr (f, entries, k, rw (check_and_mark, f, k) refl))
    ]
  ]

  accepted-Holds :
      (check_and_mark sender session now c).1 ≡ ok tt
      → Holds accepted_entry (check_and_mark sender session now c).0.entries
  accepted-Holds done = elim check-cases [
    | inl (_, e) ↦ absurd (cc)
    | inr (inl (_, e)) ↦ absurd (cc)
    | inr (inr (_, entries, k, e)) ↦
        rw e (occupy-Holds accepted_entry accepted_entry live.entries entries k).0
  ]

  check_and_mark-Holds :
      (x : ReplayEntry)
      → now < x.expires_at
      → Holds x c.entries
      → Holds x (check_and_mark sender session now c).0.entries
  check_and_mark-Holds x l h =
      let still = expire-Holds now x c.entries l h in
      elim check-cases [
        | inl (_, e) ↦ rw e still
        | inr (inl (_, e)) ↦ rw e still
        | inr (inr (_, entries, k, e)) ↦
            rw e ((occupy-Holds accepted_entry x live.entries entries k).1 still)
      ]

  held-refused :
      (expires : ℕ)
      → now < expires
      → Holds (record { sender = sender; session = session; expires_at = expires }) c.entries
      → (check_and_mark sender session now c).1 ≡ err replay
  held-refused expires l h =
      let x : ReplayEntry = record { sender = sender; session = session; expires_at = expires } in
      let marked = Holds-is_marked x live.entries (expire-Holds now x c.entries l h) in
      elim check-cases [
        | inl (_, e) ↦ rw e refl
        | inr (inl (f, _)) ↦ absurd (cc (marked, f))
        | inr (inr (f, _, _, _)) ↦ absurd (cc (marked, f))
      ]

-- Deliveries as they come in, each with the time of its check.
abbrev pub Deliveries : Type 0
Deliveries = List (AgentId × SessionId × ℕ)

unfoldable pub run : Deliveries → FixedReplayCache → FixedReplayCache
run [] c = c
run ((sender, session, now) ∷ rest) c = run rest (check_and_mark sender session now c).0

abbrev pub AllBefore : ℕ → Deliveries → Type 0
AllBefore expires [] = Unit {0}
AllBefore expires ((_, _, now) ∷ rest) = (now < expires) × AllBefore expires rest

run-Holds :
    (deliveries : Deliveries) (c : FixedReplayCache) (x : ReplayEntry)
    → AllBefore x.expires_at deliveries
    → Holds x c.entries
    → Holds x (run deliveries c).entries
unfolding run
run-Holds [] c x before h = h
run-Holds ((sender, session, now) ∷ rest) c x before h =
    run-Holds rest (check_and_mark sender session now c).0 x before.1
      (check_and_mark-Holds sender session now c x before.0 h)

-- Once a session was accepted, it is refused as a replay until its time to live is over, whatever
-- deliveries were checked in between, each before that time.
pub refused_until_expiry :
    (sender : AgentId) (session : SessionId) (now later : ℕ) (deliveries : Deliveries)
    (c : FixedReplayCache)
    → (check_and_mark sender session now c).1 ≡ ok tt
    → AllBefore (saturating_add now c.ttl_seconds) deliveries
    → later < saturating_add now c.ttl_seconds
    → (check_and_mark sender session later
        (run deliveries (check_and_mark sender session now c).0)).1
      ≡ err replay
refused_until_expiry sender session now later deliveries c done before l =
    held-refused sender session later (run deliveries (check_and_mark sender session now c).0)
      (saturating_add now c.ttl_seconds) l
      (run-Holds deliveries (check_and_mark sender session now c).0
        (accepted_entry sender session now c) before (accepted-Holds sender session now c done))
