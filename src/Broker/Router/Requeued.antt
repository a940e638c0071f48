-- ===== src/Broker/Router/Requeued.antt =====
-- What `disconnect_and_requeue` does with the frames that were not sent.
use secure_pub_sub.Prelude.{
  ℕ, suc, ◌+◌, ◌≤◌, ◌≡◌, refl, sym, ap, ◌∙◌, subst, true, List, ◌++◌, Option, some, arith, nat_eq,
  nat_eq_iff, length, Bytes, ==_iff, ℕ-Eq, List-Eq, Bool-cases, inl, inr, Option-cases,
}
use secure_pub_sub.Prelude.Map
use secure_pub_sub.Prelude.Map.{
  Map, IsMap, get-insert, get-insert_self, get-remove, insert-IsMap, remove-IsMap, length-insert,
  length-remove,
}
use secure_pub_sub.Protocol.Types.{AgentId}
use secure_pub_sub.Broker.Offline
use secure_pub_sub.Broker.Offline.{OfflineStore}
use secure_pub_sub.Broker.Offline.Refines
use secure_pub_sub.Broker.Channel.{Mpsc, IsBounded}
use secure_pub_sub.Broker.Router
use secure_pub_sub.Broker.Router.{AgentRegistration}
use secure_pub_sub.Broker.Router.Drain.{Drains, Emptied, drain-Drains}
use secure_pub_sub.Broker.Router.Valid.{IsValid, remove_connection-IsValid, set_offline-IsValid}

module _ (m : Mpsc) (b : IsBounded m) (r : Router.BrokerRouter m) (h : IsValid m b r) where
  pub is_current-get :
      (id : AgentId) (g : ℕ) → Router.is_current m id g r ≡ true → Map.get id r.connections ≡ some g
  is_current-get id g e = elim (Option-cases (Map.get id r.connections)) [
    | inl absent ↦ ground arith
    | inr (k, present) ↦ present ∙ ap some (ground (arith, nat_eq_iff k g))
  ]

  -- Channels of which one was emptied.
  Emptied-IsValid :
      (k : ℕ) (channels' : Map ℕ m.Channel)
      → Emptied m b k r.online_depth r.channels channels'
      → IsValid m b (record r { channels = channels' })
  Emptied-IsValid k channels' emptied = record {
    is_map = h.is_map;
    offline_valid = h.offline_valid;
    no_ca = h.no_ca;
    short = h.short;
    known = h.known;
    opened = λ id g e. present g (h.opened id g e);
    fits = λ g c e. bounded g c e;
    idle = h.idle;
  }
    where
      present :
          (g : ℕ)
          → (c : m.Channel) × (Map.get g r.channels ≡ some c)
          → (c : m.Channel) × (Map.get g channels' ≡ some c)
      present g (c, e) = elim (Bool-cases (nat_eq g k)) [
        | inl t ↦
            (emptied.left, ap (λ n. Map.get n channels') ((nat_eq_iff g k).0 t) ∙ emptied.here)
        | inr f ↦ (c, emptied.elsewhere g f ∙ e)
      ]

      bounded :
          (g : ℕ) (c : m.Channel)
          → Map.get g channels' ≡ some c
          → (b.capacity c ≡ r.online_depth) × (length (b.buffer c) ≤ r.online_depth)
      bounded g c e = elim (Bool-cases (nat_eq g k)) [
        | inl t ↦
            let same : some c ≡ some emptied.left =
              sym e ∙ ap (λ n. Map.get n channels') ((nat_eq_iff g k).0 t) ∙ emptied.here in
            ground (arith, emptied.same_capacity, emptied.nothing_left)
        | inr f ↦ h.fits g c (sym (emptied.elsewhere g f) ∙ e)
      ]

module _ (m : Mpsc) (b : IsBounded m) (r : Router.BrokerRouter m) (h : IsValid m b r) where
  module _ (g : AgentRegistration) (first : Option Bytes)
      (live : Router.is_current m g.identity g.generation r ≡ true) where
    abbrev pub drained : (AgentRegistration × Map ℕ m.Channel) × List Bytes
    drained = Router.drain m (suc (length g.pending + r.online_depth)) g r.channels

    abbrev pub unsent : List Bytes
    unsent = Router.first_frame m first ++ drained.1

    abbrev without_connection : Router.BrokerRouter m
    without_connection = record r {
      connections = Map.remove g.identity r.connections;
      channels = drained.0.1;
    }

    abbrev pub requeued : Router.BrokerRouter m
    requeued = record without_connection {
      offline = (Offline.prepend g.identity unsent r.offline).0;
    }

    pub disconnect_current :
        Router.disconnect_and_requeue m g first r
        ≡ ((drained.0.0, requeued), (Offline.prepend g.identity unsent r.offline).1)
    unfolding Router.disconnect_and_requeue
    disconnect_current = rw live refl

    -- The registration's channel.
    pub own_channel : (c : m.Channel) × (Map.get g.generation r.channels ≡ some c)
    own_channel =
        h.opened g.identity g.generation (is_current-get m b r h g.identity g.generation live)

    pub drained-all :
        (c : m.Channel)
        → Map.get g.generation r.channels ≡ some c
        → Drains m b g.identity g.generation r.online_depth r.channels
            (g.pending ++ b.buffer c)
            drained
    drained-all c e =
        let (wide, bounded) = h.fits g.generation c e in
        subst
          (λ n. Drains m b g.identity g.generation n r.channels (g.pending ++ b.buffer c) drained)
          wide
          (drain-Drains m b (suc (length g.pending + r.online_depth)) g.identity g.generation
            g.pending r.channels c e (omega (arith, bounded)))

    without_connection-IsValid : IsValid m b without_connection
    without_connection-IsValid =
        let (c, e) = own_channel in
        let (_, emptied, _) = drained-all c e in
        Emptied-IsValid m b (record r { connections = Map.remove g.identity r.connections })
          (remove_connection-IsValid m b r h g.identity) g.generation drained.0.1 emptied

    requeued-IsValid : IsValid m b requeued
    unfolding Refines.push_front
    requeued-IsValid =
        set_offline-IsValid m b without_connection without_connection-IsValid
          (Offline.prepend g.identity unsent r.offline).0
          (Refines.prepend-IsValid r.offline h.offline_valid g.identity unsent)
          (λ j k e.
            (Refines.queue-prepend r.offline h.offline_valid g.identity unsent j).0
            ∙ ground (
              arith,
              get-remove g.identity j r.connections h.is_map,
              h.idle j k,
              ==_iff j g.identity,
            ))

  -- Ending any registration, current or stale, preserves the invariant of the router.
  pub disconnect_and_requeue-IsValid :
      (g : AgentRegistration) (first : Option Bytes)
      → IsValid m b (Router.disconnect_and_requeue m g first r).0.1
  unfolding Router.disconnect_and_requeue
  disconnect_and_requeue-IsValid g first =
      elim (Bool-cases (Router.is_current m g.identity g.generation r)) [
        | inl live ↦
            subst (λ x. IsValid m b x.0.1) (sym (disconnect_current g first live))
              (requeued-IsValid g first live)
        | inr stale ↦ rw stale h
      ]
