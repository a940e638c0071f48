-- ===== src/Broker/Router/Kept.antt =====
-- What the operations of `BrokerRouter` of implementations/rust/crates/broker-core/src/lib.rs keep when
-- they run at the same time.
use secure_pub_sub.Prelude.{
  ℕ, ◌<◌, ◌≤◌, ◌≡◌, refl, sym, subst, Option, none, some, nat_eq, ◌||◌, leb, length, Bytes, Result,
  ok, err, Bool-cases, Option-cases, inl, inr, ◌==◌, ℕ-Eq, List-Eq,
}
use secure_pub_sub.Prelude.Map
use secure_pub_sub.Prelude.Map.{IsMap}
use secure_pub_sub.Protocol.Types.{AgentId, ca_id}
use secure_pub_sub.Broker.Errors.{RouteError}
use secure_pub_sub.Broker.Offline
use secure_pub_sub.Broker.Offline.Refines
use secure_pub_sub.Broker.Channel.{Mpsc, IsBounded, full, closed}
use secure_pub_sub.Broker.Router
use secure_pub_sub.Broker.Router.{AgentRegistration}
use secure_pub_sub.Broker.Router.Valid.{IsValid, set_offline-IsValid}
use secure_pub_sub.Broker.Router.Registered.{register-IsValid}
use secure_pub_sub.Broker.Router.Requeued.{disconnect_and_requeue-IsValid}
use secure_pub_sub.Broker.Router.Invariant.{
  unregister-IsValid, send_online-IsValid, received-IsValid, closed-IsValid, set_ca-IsValid,
  Result-cases, route_agent_request-IsValid,
}
use secure_pub_sub.Broker.Router.Interleaved.{
  System, Step, Reach, here, next, registers, unregisters, disconnects, requests, sends, stores,
  receives, closes, ca_receives, ca_takes, ca_closes,
}

module _ (m : Mpsc) (b : IsBounded m) where
  -- What every order of steps keeps. It is the invariant of the undisturbed router but for the
  -- emptiness of the offline store for the agents that are connected.
  pub record IsKept (r : Router.BrokerRouter m) : Type 0 where
    pub is_map : IsMap r.connections
    pub offline_valid : Refines.IsValid r.offline
    pub no_ca : Map.get ca_id r.connections ≡ none
    pub short : length r.connections ≤ r.maximum
    pub known :
        (id : AgentId) (g : ℕ)
        → Map.get id r.connections ≡ some g
        → (g < r.generation) × ((j : AgentId) → Map.get j r.connections ≡ some g → j ≡ id)
    pub opened :
        (id : AgentId) (g : ℕ)
        → Map.get id r.connections ≡ some g
        → (c : m.Channel) × (Map.get g r.channels ≡ some c)
    pub fits :
        (g : ℕ) (c : m.Channel)
        → Map.get g r.channels ≡ some c
        → (b.capacity c ≡ r.online_depth) × (length (b.buffer c) ≤ r.online_depth)

  -- The router without its offline store.
  abbrev quieted : Router.BrokerRouter m → Router.BrokerRouter m
  quieted r = record r { offline = Offline.new 0 }

  quieted-IsValid : (r : Router.BrokerRouter m) → IsValid m b r → IsValid m b (quieted r)
  unfolding Offline.new Map.get
  quieted-IsValid r h =
      set_offline-IsValid m b r h (Offline.new 0) (Refines.new-IsValid 0) (λ id g e. refl)

  to_quiet : (r : Router.BrokerRouter m) → IsKept r → IsValid m b (quieted r)
  unfolding Offline.new Map.get
  to_quiet r h = record {
    is_map = h.is_map;
    offline_valid = Refines.new-IsValid 0;
    no_ca = h.no_ca;
    short = h.short;
    known = h.known;
    opened = h.opened;
    fits = h.fits;
    idle = λ id g e. refl;
  }

  from_quiet :
      (r : Router.BrokerRouter m) → IsValid m b (quieted r) → Refines.IsValid r.offline → IsKept r
  from_quiet r h valid = record {
    is_map = h.is_map;
    offline_valid = valid;
    no_ca = h.no_ca;
    short = h.short;
    known = h.known;
    opened = h.opened;
    fits = h.fits;
  }

  pub IsValid-IsKept : (r : Router.BrokerRouter m) → IsValid m b r → IsKept r
  IsValid-IsKept r h = from_quiet r (quieted-IsValid r h) h.offline_valid

  -- The rest of the router does not depend on its offline store.
  abbrev Follows : Router.BrokerRouter m → Router.BrokerRouter m → Type 0
  Follows r' q = (quieted r' ≡ quieted q) × Refines.IsValid r'.offline

  follow :
      (r r' q : Router.BrokerRouter m)
      → Follows r' q
      → (IsValid m b (quieted r) → IsValid m b q)
      → IsKept r
      → IsKept r'
  follow r r' q (same, valid) keeps h =
      from_quiet r' (subst (IsValid m b) (sym same) (quieted-IsValid q (keeps (to_quiet r h))))
        valid

  module _ (r : Router.BrokerRouter m) (h : IsKept r) where
    register-Follows :
        (id : AgentId) → Follows (Router.register m id r).0 (Router.register m id (quieted r)).0
    unfolding Router.register
    register-Follows id = elim (Bool-cases (id == ca_id)) [
      | inl e ↦ rw (Router.register, e) (refl, h.offline_valid)
      | inr e ↦ elim (Bool-cases (nat_eq r.maximum 0 || nat_eq r.online_depth 0)) [
        | inl e1 ↦ rw (Router.register, e, e1) (refl, h.offline_valid)
        | inr e1 ↦ elim (Bool-cases (Map.contains_key id r.connections)) [
          | inl e2 ↦ rw (Router.register, e, e1, e2) (refl, h.offline_valid)
          | inr e2 ↦ elim (Bool-cases (leb r.maximum (length r.connections))) [
            | inl e3 ↦ rw (Router.register, e, e1, e2, e3) (refl, h.offline_valid)
            | inr e3 ↦
                rw (Router.register, e, e1, e2, e3)
                  (refl, Refines.take_all-IsValid r.offline h.offline_valid id)
          ]
        ]
      ]
    ]

    unregister-Follows :
        (id : AgentId) (g : ℕ)
        → Follows (Router.unregister m id g r) (Router.unregister m id g (quieted r))
    unfolding Router.unregister
    unregister-Follows id g = elim (Bool-cases (Router.is_current m id g r)) [
      | inl e ↦ rw (Router.unregister, e) (refl, h.offline_valid)
      | inr e ↦ rw (Router.unregister, e) (refl, h.offline_valid)
    ]

    disconnect-Follows :
        (g : AgentRegistration) (first : Option Bytes)
        → Follows
            (Router.disconnect_and_requeue m g first r).0.1
            (Router.disconnect_and_requeue m g first (quieted r)).0.1
    unfolding Router.disconnect_and_requeue
    disconnect-Follows g first = elim (Bool-cases (Router.is_current m g.identity g.generation r)) [
      | inl e ↦
          rw (Router.disconnect_and_requeue, e)
            (refl, Refines.prepend-IsValid r.offline h.offline_valid g.identity _)
      | inr e ↦ rw (Router.disconnect_and_requeue, e) (refl, h.offline_valid)
    ]

    request-Follows :
        (id : AgentId) (frame : Bytes)
        → Follows
            (Router.route_agent_request m id frame r).0
            (Router.route_agent_request m id frame (quieted r)).0
    unfolding Router.route_agent_request
    request-Follows id frame = go (Router.check_request m id frame) refl
      where
        go :
            (x : Result RouteError (Unit {0}))
            → Router.check_request m id frame ≡ x
            → Follows
                (Router.route_agent_request m id frame r).0
                (Router.route_agent_request m id frame (quieted r)).0
        go (err x) e = rw (Router.route_agent_request, e) (refl, h.offline_valid)
        go (ok _) e = elim (Bool-cases (nat_eq r.ca_depth 0)) [
          | inl z ↦ rw (Router.route_agent_request, e, z) (refl, h.offline_valid)
          | inr z ↦ rw (Router.route_agent_request, e, z) (refl, h.offline_valid)
        ]

    send-Follows :
        (id : AgentId) (frame : Bytes)
        → Follows (Router.send_online m id frame r).0 (Router.send_online m id frame (quieted r)).0
    unfolding Router.send_online
    send-Follows id frame = elim (Option-cases (Map.get id r.connections)) [
      | inl e ↦ rw (Router.send_online, e) (refl, h.offline_valid)
      | inr (g, e) ↦
          let (c, e') = h.opened id g e in
          elim (Result-cases (m.try_send frame c).1) [
            | inl k ↦ rw (Router.send_online, e, e', k) (refl, h.offline_valid)
            | inr (full, k) ↦ rw (Router.send_online, e, e', k) (refl, h.offline_valid)
            | inr (closed, k) ↦ rw (Router.send_online, e, e', k) (refl, h.offline_valid)
          ]
    ]

    stored-IsKept : (id : AgentId) (frame : Bytes) → IsKept (Router.store_offline m id frame r).0
    unfolding Router.store_offline
    stored-IsKept id frame =
        from_quiet (Router.store_offline m id frame r).0 (to_quiet r h)
          (Refines.enqueue-IsValid r.offline h.offline_valid id frame)

    received-IsKept : (g : ℕ) → IsKept (record r { channels = (Router.recv m g r.channels).0 })
    unfolding Router.recv
    received-IsKept g = elim (Option-cases (Map.get g r.channels)) [
      | inl e ↦ rw (Router.recv, e) h
      | inr (c, e) ↦
          rw (Router.recv, e)
            (from_quiet (record r { channels = Map.insert g (m.try_recv c).0 r.channels })
              (received-IsValid m b (quieted r) (to_quiet r h) g c e) h.offline_valid)
    ]

    closed-IsKept :
        (g : ℕ) (c : m.Channel)
        → Map.get g r.channels ≡ some c
        → IsKept (record r { channels = Map.insert g (m.close c) r.channels })
    closed-IsKept g c e =
        from_quiet (record r { channels = Map.insert g (m.close c) r.channels })
          (closed-IsValid m b (quieted r) (to_quiet r h) g c e) h.offline_valid

    taken-IsKept : IsKept (Router.take_ca_requests m r).0
    unfolding Router.take_ca_requests
    taken-IsKept = record {
      is_map = h.is_map;
      offline_valid = h.offline_valid;
      no_ca = h.no_ca;
      short = h.short;
      known = h.known;
      opened = h.opened;
      fits = h.fits;
    }

    set_ca-IsKept : (c : m.Channel) → IsKept (record r { ca = c })
    set_ca-IsKept c =
        from_quiet (record r { ca = c }) (set_ca-IsValid m b (quieted r) (to_quiet r h) c)
          h.offline_valid

  Step-IsKept : (s t : System m) → IsKept s.0 → Step m s t → IsKept t.0
  Step-IsKept s t h (registers r tasks id new) =
      follow r (Router.register m id r).0 (Router.register m id (quieted r)).0
        (register-Follows r h id) (λ v. register-IsValid m b (quieted r) v id new) h
  Step-IsKept s t h (unregisters r tasks id g) =
      follow r (Router.unregister m id g r) (Router.unregister m id g (quieted r))
        (unregister-Follows r h id g) (λ v. unregister-IsValid m b (quieted r) v id g) h
  Step-IsKept s t h (disconnects r tasks g first) =
      follow r (Router.disconnect_and_requeue m g first r).0.1
        (Router.disconnect_and_requeue m g first (quieted r)).0.1 (disconnect-Follows r h g first)
        (λ v. disconnect_and_requeue-IsValid m b (quieted r) v g first) h
  Step-IsKept s t h (requests r tasks id frame) =
      follow r (Router.route_agent_request m id frame r).0
        (Router.route_agent_request m id frame (quieted r)).0 (request-Follows r h id frame)
        (λ v. route_agent_request-IsValid m b (quieted r) v id frame) h
  Step-IsKept s t h (sends r tasks id frame checked) =
      follow r (Router.send_online m id frame r).0 (Router.send_online m id frame (quieted r)).0
        (send-Follows r h id frame) (λ v. send_online-IsValid m b (quieted r) v id frame) h
  Step-IsKept s t h (stores r before id frame after) = stored-IsKept r h id frame
  Step-IsKept s t h (receives r tasks g) = received-IsKept r h g
  Step-IsKept s t h (closes r tasks g c e) = closed-IsKept r h g c e
  Step-IsKept s t h (ca_receives r tasks) = set_ca-IsKept r h (m.try_recv r.ca).0
  Step-IsKept s t h (ca_takes r tasks) = taken-IsKept r h
  Step-IsKept s t h (ca_closes r tasks) = set_ca-IsKept r h (m.close r.ca)

  -- Whatever the order in which the operations of a router run, and whatever comes between the two
  -- parts of a delivery: as long as no registration's number reaches 2^64, an agent has at most one
  -- connection, whose channel is its own and is there, the CA has none, the connections stay within
  -- their maximum, every channel within its depth and every offline queue within its depth, if all
  -- this holds at first.
  pub Reach-IsKept : (s t : System m) → IsKept s.0 → Reach m s t → IsKept t.0
  Reach-IsKept s _ h here = h
  Reach-IsKept s u h (next {t} path step) = Step-IsKept t u (Reach-IsKept s t h path) step
