-- ===== src/Broker/Router/Invariant.antt =====
-- The parts of the router's operations that do not touch the offline store preserve its invariant.
use secure_pub_sub.Prelude.{
  ℕ, ◌≤◌, ◌≡◌, List, sym, subst, refl, ap, ◌∙◌, [], ◌∷◌, some, arith, leb, nat_eq, length,
  length-append, Bytes, Result, ok, err, ℕ-Eq, List-Eq, Bool-cases, ◌⊎◌, inl, inr, Option-cases,
}
use secure_pub_sub.Prelude.Map
use secure_pub_sub.Prelude.Map.{
  Map, IsMap, get-insert, get-insert_self, get-remove, insert-IsMap, remove-IsMap, length-insert,
  length-remove,
}
use secure_pub_sub.Protocol.Types.{AgentId}
use secure_pub_sub.Broker.Errors.{RouteError}
use secure_pub_sub.Broker.Offline.{OfflineStore}
use secure_pub_sub.Broker.Offline.Refines
use secure_pub_sub.Broker.Channel.{Mpsc, IsBounded, full, closed}
use secure_pub_sub.Broker.Router
use secure_pub_sub.Broker.Router.{AgentRegistration}
use secure_pub_sub.Broker.Router.Sends.{send-absent, send-room, send-full, send-closed}
use secure_pub_sub.Broker.Router.Valid.{IsValid, remove_connection-IsValid, set_channel-IsValid}

pub Result-cases : {E : Type 0} (r : Result E (Unit {0})) → (r ≡ ok tt) ⊎ ((e : E) × (r ≡ err e))
Result-cases (ok tt) = inl refl
Result-cases (err e) = inr (e, refl)

Queue-cases :
    (l : List Bytes) → (l ≡ []) ⊎ ((frame : Bytes) × (rest : List Bytes) × (l ≡ frame ∷ rest))
Queue-cases [] = inl refl
Queue-cases (frame ∷ rest) = inr (frame, rest, refl)

module _ (m : Mpsc) (b : IsBounded m) where
  pub with_offline_store-IsValid :
      (maximum online_depth ca_depth : ℕ) (s : OfflineStore)
      → Refines.IsValid s
      → IsValid m b (Router.with_offline_store m maximum online_depth ca_depth s)
  unfolding Router.with_offline_store Map.get
  with_offline_store-IsValid maximum online_depth ca_depth s valid = record {
    is_map = tt;
    offline_valid = valid;
    no_ca = refl;
    short = omega arith;
    known = λ id g e. absurd (cc);
    opened = λ id g e. absurd (cc);
    fits = λ g c e. absurd (cc);
    idle = λ id g e. absurd (cc);
  }

  -- A send and a receipt keep the bounds of a channel.
  pub Within : ℕ → m.Channel → Type 0
  Within depth c = (b.capacity c ≡ depth) × (length (b.buffer c) ≤ depth)

  pub try_send-Within :
      (depth : ℕ) (frame : Bytes) (c : m.Channel)
      → Within depth c
      → Within depth (m.try_send frame c).0
  unfolding Within
  try_send-Within depth frame c w = elim (Bool-cases (b.is_closed c)) [
    | inl e ↦ rw (b.send_closed frame c e) w
    | inr e ↦ elim (Bool-cases (leb (b.capacity c) (length (b.buffer c)))) [
      | inl l ↦ rw (b.send_full frame c e (ground arith)) w
      | inr l ↦
          let (_, queued, wide, _) = b.send_room frame c e (ground arith) in
          (
            wide ∙ w.0,
            ground (arith, ap length queued, length-append (b.buffer c) (frame ∷ []), w.0),
          )
    ]
  ]

  module _ (r : Router.BrokerRouter m) (h : IsValid m b r) where
    pub unregister-IsValid : (id : AgentId) (g : ℕ) → IsValid m b (Router.unregister m id g r)
    unfolding Router.unregister
    unregister-IsValid id g = elim (Bool-cases (Router.is_current m id g r)) [
      | inl e ↦ rw e (remove_connection-IsValid m b r h id)
      | inr e ↦ rw e h
    ]

  module _ (r : Router.BrokerRouter m) (h : IsValid m b r) where
    -- The router after a send on one of its channels.
    abbrev sent_on : ℕ → m.Channel → Bytes → Router.BrokerRouter m
    sent_on g c frame = record r { channels = Map.insert g (m.try_send frame c).0 r.channels }

    sent_on-IsValid :
        (g : ℕ) (c : m.Channel) (frame : Bytes)
        → Map.get g r.channels ≡ some c
        → IsValid m b (sent_on g c frame)
    unfolding Within
    sent_on-IsValid g c frame e =
        let w = try_send-Within r.online_depth frame c (h.fits g c e) in
        set_channel-IsValid m b r h g (m.try_send frame c).0 w.0 w.1

    removed-IsValid :
        (id : AgentId) (g : ℕ) (c : m.Channel) (frame : Bytes)
        → Map.get g r.channels ≡ some c
        → IsValid m b (record (sent_on g c frame) { connections = Map.remove id r.connections })
    removed-IsValid id g c frame e =
        remove_connection-IsValid m b (sent_on g c frame) (sent_on-IsValid g c frame e) id

    -- The part of a delivery under the lock.
    pub send_online-IsValid :
        (id : AgentId) (frame : Bytes) → IsValid m b (Router.send_online m id frame r).0
    send_online-IsValid id frame = elim (Option-cases (Map.get id r.connections)) [
      | inl absent ↦ subst (λ x. IsValid m b x.0) (sym (send-absent m r id frame absent)) h
      | inr (g, e) ↦
          let (c, e') = h.opened id g e in
          elim (Result-cases (m.try_send frame c).1) [
            | inl k ↦
                subst (λ x. IsValid m b x.0) (sym (send-room m r id frame g c e e' k))
                  (sent_on-IsValid g c frame e')
            | inr (full, k) ↦
                subst (λ x. IsValid m b x.0) (sym (send-full m r id frame g c e e' k))
                  (sent_on-IsValid g c frame e')
            | inr (closed, k) ↦
                subst (λ x. IsValid m b x.0) (sym (send-closed m r id frame g c e e' k))
                  (removed-IsValid id g c frame e')
          ]
    ]

    -- A receipt on one of its channels, and the drop of a receiver.
    pub received-IsValid :
        (g : ℕ) (c : m.Channel)
        → Map.get g r.channels ≡ some c
        → IsValid m b (record r { channels = Map.insert g (m.try_recv c).0 r.channels })
    received-IsValid g c e =
        let (wide, short) = h.fits g c e in
        elim (Queue-cases (b.buffer c)) [
          | inl empty ↦
              subst (λ x. IsValid m b (record r { channels = Map.insert g x.0 r.channels }))
                (sym (b.recv_empty c empty)) (set_channel-IsValid m b r h g c wide short)
          | inr (frame, rest, queued) ↦
              let (_, left, same, _) = b.recv_front c frame rest queued in
              set_channel-IsValid m b r h g (m.try_recv c).0 (same ∙ wide)
                (omega (arith, ap length left, ap length queued, short))
        ]

    pub closed-IsValid :
        (g : ℕ) (c : m.Channel)
        → Map.get g r.channels ≡ some c
        → IsValid m b (record r { channels = Map.insert g (m.close c) r.channels })
    closed-IsValid g c e =
        let (wide, short) = h.fits g c e in
        set_channel-IsValid m b r h g (m.close c) (b.capacity-close c ∙ wide)
          (omega (arith, b.length-close c, short))

    pub set_ca-IsValid : (c : m.Channel) → IsValid m b (record r { ca = c })
    set_ca-IsValid c = record {
      is_map = h.is_map;
      offline_valid = h.offline_valid;
      no_ca = h.no_ca;
      short = h.short;
      known = h.known;
      opened = h.opened;
      fits = h.fits;
      idle = h.idle;
    }

    pub route_agent_request-IsValid :
        (id : AgentId) (frame : Bytes) → IsValid m b (Router.route_agent_request m id frame r).0
    unfolding Router.route_agent_request
    route_agent_request-IsValid id frame = go (Router.check_request m id frame) refl
      where
        go :
            (x : Result RouteError (Unit {0}))
            → Router.check_request m id frame ≡ x
            → IsValid m b (Router.route_agent_request m id frame r).0
        go (err x) e = rw (Router.route_agent_request, e) h
        go (ok _) e = elim (Bool-cases (nat_eq r.ca_depth 0)) [
          | inl z ↦ rw (Router.route_agent_request, e, z) h
          | inr z ↦ rw (Router.route_agent_request, e, z) (set_ca-IsValid (m.try_send frame r.ca).0)
        ]
