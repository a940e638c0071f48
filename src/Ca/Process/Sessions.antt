-- ===== src/Ca/Process/Sessions.antt =====
-- What the requests leave alone in the store of implementations/rust/crates/ca-core/src/lib.rs, and
-- the refusal of a request that comes again.
use secure_pub_sub.Prelude.{
  ℕ, ◌<◌, ◌≡◌, refl, sym, subst, not, ◌&&◌, List, [], ◌∷◌, All, Bytes, leb, ℕ-Eq, List-Eq,
  Bool-cases, Option-cases, inl, inr, length,
}
use secure_pub_sub.Prelude.Map
use secure_pub_sub.Prelude.Map.{Map}
use secure_pub_sub.Protocol.Types.{AgentId, SessionId}
use secure_pub_sub.Protocol.Primitives.{Primitives, CryptoRandom}
use secure_pub_sub.Ca.Replay.{ReplayCache}
use secure_pub_sub.Ca.Replay.Once
use secure_pub_sub.Ca.Store
use secure_pub_sub.Ca.Store.{
  MemoryStore, PublicKeys, StoredSubscription, StoreLimits, one_shot, kind_eq, claim_subscription,
  put_subscription, set_environment, replace, take_out, sort_by_key, count, or_default,
}
use secure_pub_sub.Ca.Guard.{EnvironmentPolicy}
use secure_pub_sub.Ca.Handler.{World}
use secure_pub_sub.Ca.Process.{CaKeys, process}
use secure_pub_sub.Ca.Process.Served.{IsServed, IsInvariant}
use secure_pub_sub.Ca.Process.Served.Kept.{check_and_mark-IsServed}
use secure_pub_sub.Ca.Process.Rule.{process-Serves}
use secure_pub_sub.Ca.Process.Invariant.{IsServed-IsInvariant}

-- The parts of the store that no request changes after its session is marked.
pub record AreKept (directory : Map AgentId PublicKeys) (sessions : ReplayCache)
    (limits : StoreLimits) (s : MemoryStore) : Type 0 where
  pub provisioned : s.public_keys ≡ directory
  pub marked : s.replay ≡ sessions
  pub bounds : s.limits ≡ limits

module _ (directory : Map AgentId PublicKeys) (sessions : ReplayCache) (limits : StoreLimits) where
  abbrev Kept : MemoryStore → Type 0
  Kept = AreKept directory sessions limits

  claims : (s : MemoryStore) (e : StoredSubscription) → Kept s → Kept (claim_subscription e s).0
  unfolding claim_subscription
  claims s e h = elim (Option-cases (Map.get e.type_id s.subscriptions)) [
    | inl n ↦ rw (claim_subscription, n) h
    | inr (b, k) ↦ elim (Option-cases (take_out e b)) [
      | inl n ↦ rw (claim_subscription, k, n) h
      | inr (c, t) ↦ elim (Bool-cases (kind_eq e.kind one_shot)) [
        | inl one ↦
            rw (claim_subscription, k, t, one)
              (record { provisioned = h.provisioned; marked = h.marked; bounds = h.bounds })
        | inr many ↦ rw (claim_subscription, k, t, many) h
      ]
    ]
  ]

  puts : (s : MemoryStore) (e : StoredSubscription) → Kept s → Kept (put_subscription e s).0
  unfolding put_subscription
  puts s e h = elim (Option-cases (replace e (or_default (Map.get e.type_id s.subscriptions)))) [
    | inr (b, k) ↦
        rw (put_subscription, k)
          (record { provisioned = h.provisioned; marked = h.marked; bounds = h.bounds })
    | inl n ↦ elim (Bool-cases (leb s.limits.subscriptions (count s.subscriptions))) [
      | inl t ↦
          rw (put_subscription, n, t)
            (record { provisioned = h.provisioned; marked = h.marked; bounds = h.bounds })
      | inr t ↦
          rw (put_subscription, n, t)
            (record { provisioned = h.provisioned; marked = h.marked; bounds = h.bounds })
    ]
  ]

  sets :
      (s : MemoryStore) (agent : AgentId) (encoded : Bytes)
      → Kept s
      → Kept (set_environment agent encoded s).0
  unfolding set_environment
  sets s agent encoded h =
      elim (Bool-cases (
        not (Map.contains_key agent s.environments)
        && leb s.limits.environments (length s.environments))) [
          | inl t ↦ rw t h
          | inr t ↦
              rw t (record { provisioned = h.provisioned; marked = h.marked; bounds = h.bounds })
        ]

module _ (s : MemoryStore) where
  at_rest : AreKept s.public_keys s.replay s.limits s
  at_rest = record { provisioned = refl; marked = refl; bounds = refl }

  claim-replay : (e : StoredSubscription) → (claim_subscription e s).0.replay ≡ s.replay
  claim-replay e = (claims s.public_keys s.replay s.limits s e at_rest).marked

  put-replay : (e : StoredSubscription) → (put_subscription e s).0.replay ≡ s.replay
  put-replay e = (puts s.public_keys s.replay s.limits s e at_rest).marked

  set-replay :
      (agent : AgentId) (encoded : Bytes) → (set_environment agent encoded s).0.replay ≡ s.replay
  set-replay agent encoded = (sets s.public_keys s.replay s.limits s agent encoded at_rest).marked

-- The requests that came in, each with the time of its check.
abbrev pub Requests : Type 0
Requests = List (Bytes × ℕ)

module _ (p : Primitives) (r : CryptoRandom) (policy : EnvironmentPolicy) (ca : CaKeys)
    (directory : Map AgentId PublicKeys) where
  -- The state after one request after the other.
  unfoldable pub process_all : Requests → World r → World r
  process_all [] w = w
  process_all ((frame, now) ∷ rest) w = process_all rest (process p r policy ca frame now w).0

  module _ (sender : AgentId) (session : SessionId) (expires : ℕ) where
    -- A well-formed store that remembers a session.
    pub record IsMarked (s : MemoryStore) : Type 0 where
      pub served : IsServed policy directory s
      pub marked : Once.Remembers s.replay sender session expires

    moved :
        (s s' : MemoryStore)
        → IsMarked s
        → IsServed policy directory s'
        → s'.replay ≡ s.replay
        → IsMarked s'
    moved s s' h served same = record {
      served = served;
      marked = subst (λ c. Once.Remembers c sender session expires) (sym same) h.marked;
    }

    pub IsMarked-IsInvariant : IsInvariant policy directory IsMarked
    IsMarked-IsInvariant =
        let inv = IsServed-IsInvariant policy directory in
        record {
          provisioned = λ s h. h.served.provisioned;
          claims = λ s e h. moved s _ h (inv.claims s e h.served) (claim-replay s e);
          puts = λ s e h entry. moved s _ h (inv.puts s e h.served entry) (put-replay s e);
          sets = λ s agent encoded h setting.
              moved s _ h (inv.sets s agent encoded h.served setting) (set-replay s agent encoded);
        }

    mark-IsMarked :
        (now : ℕ)
        → now < expires
        → (s : MemoryStore) (sender' : AgentId) (session' : SessionId) → IsMarked s
        → IsMarked (Store.check_and_mark sender' session' now s).0
    unfolding Store.check_and_mark
    mark-IsMarked now soon s sender' session' h = record {
      served = check_and_mark-IsServed policy directory s h.served sender' session' now;
      marked =
          Once.check_and_mark-Remembers sender' session' now s.replay h.served.sessions sender
            session expires h.marked soon;
    }

    pub process_all-IsMarked :
        (requests : Requests) (w : World r)
        → All (λ q. q.1 < expires) requests
        → IsMarked w.store
        → IsMarked (process_all requests w).store
    unfolding process_all
    process_all-IsMarked [] w soon h = h
    process_all-IsMarked ((frame, now) ∷ rest) w soon h =
        process_all-IsMarked rest (process p r policy ca frame now w).0 soon.1
          ((process-Serves p r policy ca directory IsMarked IsMarked-IsInvariant now
              (mark-IsMarked now soon.0) frame).run
            w h).0
