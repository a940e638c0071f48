-- ===== src/Ca/Replay/Once.antt =====
-- A session is accepted once before it expires.
use secure_pub_sub.Prelude.{
  saturating_add, ℕ, ◌≤◌, ◌<◌, ◌≡◌, refl, List, [], ◌∷◌, none, some, arith, leb, ltb, length, ok,
  err, Bool-cases, Option-cases, ◌⊎◌, inl, inr, ==_iff, ℕ-Eq, List-Eq, Pair-Eq,
}
use secure_pub_sub.Prelude.Map
use secure_pub_sub.Prelude.Map.{
  Map, IsMap, kept, get-insert, get-insert_self, insert-IsMap, retain-IsMap, get-retain,
  length-insert, length-retain-le,
}
use secure_pub_sub.Protocol.Types.{AgentId, SessionId, replay, capacity}
use secure_pub_sub.Ca.Replay.{ReplayCache, new, reclaim, check_and_mark}

pub record IsValid (c : ReplayCache) : Type 0 where
  pub is_map : IsMap c.entries
  pub short : length c.entries ≤ c.maximum

pub new-IsValid : (maximum ttl : ℕ) → IsValid (new maximum ttl)
unfolding new
new-IsValid maximum ttl = record { is_map = tt; short = omega arith }

reclaim-IsValid : (now : ℕ) (c : ReplayCache) → IsValid c → IsValid (reclaim now c)
unfolding reclaim
reclaim-IsValid now c h = record {
  is_map = retain-IsMap (ltb now) c.entries h.is_map;
  short = omega (arith, h.short, length-retain-le (ltb now) c.entries);
}

-- The session is remembered until `expires`.
pub Remembers : ReplayCache → AgentId → SessionId → ℕ → Type 0
Remembers c sender session expires = Map.get (sender, session) c.entries ≡ some expires

reclaim-Remembers :
    (now : ℕ) (c : ReplayCache) (sender : AgentId) (session : SessionId) (expires : ℕ)
    → IsValid c
    → Remembers c sender session expires
    → now < expires
    → Remembers (reclaim now c) sender session expires
unfolding reclaim Remembers
reclaim-Remembers now c sender session expires h m l =
    ground (arith, get-retain (ltb now) (sender, session) c.entries h.is_map, m)

module _ (sender : AgentId) (session : SessionId) (now : ℕ) (c : ReplayCache) where
  abbrev accepted : ReplayCache
  accepted = record (reclaim now c) {
    entries =
        Map.insert (sender, session) (saturating_add now c.ttl_seconds) (reclaim now c).entries;
  }

  -- The three ways through the check.
  check-cases :
      ((expires : ℕ) × Remembers (reclaim now c) sender session expires
        × (check_and_mark sender session now c ≡ (reclaim now c, err replay)))
      ⊎ ((Map.get (sender, session) (reclaim now c).entries ≡ none)
          × (c.maximum ≤ length (reclaim now c).entries)
          × (check_and_mark sender session now c ≡ (reclaim now c, err capacity)))
      ⊎ ((Map.get (sender, session) (reclaim now c).entries ≡ none)
          × (length (reclaim now c).entries < c.maximum)
          × (check_and_mark sender session now c ≡ (accepted, ok tt)))
  unfolding check_and_mark Remembers Map.contains_key
  check-cases = elim (Option-cases (Map.get (sender, session) (reclaim now c).entries)) [
    | inr (expires, e) ↦ inl (expires, e, rw (check_and_mark, e) refl)
    | inl absent ↦ elim (Bool-cases (leb c.maximum (length (reclaim now c).entries))) [
      | inl l ↦ inr (inl (absent, ground arith, rw (check_and_mark, absent, l) refl))
      | inr l ↦ inr (inr (absent, ground arith, rw (check_and_mark, absent, l) refl))
    ]
  ]

  module _ (h : IsValid c) where
    live-IsValid : IsValid (reclaim now c)
    live-IsValid = reclaim-IsValid now c h

    accepted-IsValid : length (reclaim now c).entries < c.maximum → IsValid accepted
    unfolding reclaim
    accepted-IsValid l = record {
      is_map = insert-IsMap _ _ (reclaim now c).entries live-IsValid.is_map;
      short = ground (
        arith,
        length-insert (sender, session) (saturating_add now c.ttl_seconds) (reclaim now c).entries,
      );
    }

    -- A check keeps the cache a map with no more entries than its maximum.
    pub check_and_mark-IsValid : IsValid (check_and_mark sender session now c).0
    check_and_mark-IsValid = elim check-cases [
      | inl (_, _, e) ↦ rw e live-IsValid
      | inr (inl (_, _, e)) ↦ rw e live-IsValid
      | inr (inr (_, l, e)) ↦ rw e (accepted-IsValid l)
    ]

    pub accepted-Remembers :
        (check_and_mark sender session now c).1 ≡ ok tt
        → Remembers
            (check_and_mark sender session now c).0
            sender
            session
            (saturating_add now c.ttl_seconds)
    unfolding Remembers
    accepted-Remembers done = elim check-cases [
      | inl (_, _, e) ↦ absurd (cc)
      | inr (inl (_, _, e)) ↦ absurd (cc)
      | inr (inr (_, _, e)) ↦ rw e (get-insert_self _ _ (reclaim now c).entries)
    ]

    pub remembered-refused :
        (expires : ℕ)
        → Remembers c sender session expires
        → now < expires
        → (check_and_mark sender session now c).1 ≡ err replay
    unfolding Remembers
    remembered-refused expires m l =
        let still = reclaim-Remembers now c sender session expires h m l in
        elim check-cases [
          | inl (_, _, e) ↦ rw e refl
          | inr (inl (absent, _, e)) ↦ absurd (cc)
          | inr (inr (absent, _, e)) ↦ absurd (cc)
        ]

    pub check_and_mark-Remembers :
        (sender' : AgentId) (session' : SessionId) (expires : ℕ)
        → Remembers c sender' session' expires
        → now < expires
        → Remembers (check_and_mark sender session now c).0 sender' session' expires
    unfolding Remembers
    check_and_mark-Remembers sender' session' expires m l =
        let still = reclaim-Remembers now c sender' session' expires h m l in
        elim check-cases [
          | inl (_, _, e) ↦ rw e still
          | inr (inl (_, _, e)) ↦ rw e still
          | inr (inr (absent, _, e)) ↦ rw e (
              ground (
                arith,
                get-insert (sender, session) (sender', session') (saturating_add now c.ttl_seconds)
                    (reclaim now c).entries,
                ==_iff {A = AgentId × SessionId} (sender', session') (sender, session),
              ))
        ]

-- Requests as they come in, each with the time of its check.
abbrev pub Requests : Type 0
Requests = List (AgentId × SessionId × ℕ)

pub run : Requests → ReplayCache → ReplayCache
run [] c = c
run ((sender, session, now) ∷ rest) c = run rest (check_and_mark sender session now c).0

abbrev pub AllBefore : ℕ → Requests → Type 0
AllBefore expires [] = Unit {0}
AllBefore expires ((_, _, now) ∷ rest) = (now < expires) × AllBefore expires rest

run-Remembers :
    (requests : Requests) (c : ReplayCache) (sender : AgentId) (session : SessionId) (expires : ℕ)
    → IsValid c
    → Remembers c sender session expires
    → AllBefore expires requests
    → IsValid (run requests c) × Remembers (run requests c) sender session expires
unfolding run
run-Remembers [] c sender session expires h m before = (h, m)
run-Remembers ((s, t, now) ∷ rest) c sender session expires h m before =
    run-Remembers rest (check_and_mark s t now c).0 sender session expires
      (check_and_mark-IsValid s t now c h)
      (check_and_mark-Remembers s t now c h sender session expires m before.0) before.1

-- In a valid cache: once a session was accepted, it is refused as a replay until its time to live
-- is over, whatever requests were checked in between, each before that time.
pub check_and_mark-once :
    (sender : AgentId) (session : SessionId) (now later : ℕ) (requests : Requests) (c : ReplayCache)
    → IsValid c
    → (check_and_mark sender session now c).1 ≡ ok tt
    → AllBefore (saturating_add now c.ttl_seconds) requests
    → later < saturating_add now c.ttl_seconds
    → (check_and_mark sender session later (run requests (check_and_mark sender session now c).0)).1
      ≡ err replay
check_and_mark-once sender session now later requests c h done before l =
    let (valid, remembered) =
      run-Remembers requests (check_and_mark sender session now c).0 sender session
        (saturating_add now c.ttl_seconds) (check_and_mark-IsValid sender session now c h)
        (accepted-Remembers sender session now c h done) before in
    remembered-refused sender session later _ valid _ remembered l
