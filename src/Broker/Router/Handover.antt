-- ===== src/Broker/Router/Handover.antt =====
-- The waiting frames when an agent's registration ends, and when the next one begins.
use secure_pub_sub.Prelude.{
  ◌≡◌, refl, sym, ap, ap₂, ◌∙◌, true, false, [], ◌++◌, Option, none, arith, nat_eq_iff, append-nil,
  take, Bytes, Result, ok, err, if◌then◌else◌, ==_iff, ==_refl, ◌==◌, ℕ-Eq, List-Eq, Bool-cases,
  inl, inr,
}
use secure_pub_sub.Prelude.Map
use secure_pub_sub.Prelude.Map.{
  Map, IsMap, get-insert, get-insert_self, get-remove, insert-IsMap, remove-IsMap, length-insert,
  length-remove,
}
use secure_pub_sub.Protocol.Types.{AgentId}
use secure_pub_sub.Broker.Errors.{RouteError}
use secure_pub_sub.Broker.Offline
use secure_pub_sub.Broker.Offline.{OfflineStore}
use secure_pub_sub.Broker.Offline.Refines
use secure_pub_sub.Broker.Channel.{Mpsc, IsBounded}
use secure_pub_sub.Broker.Router
use secure_pub_sub.Broker.Router.{AgentRegistration}
use secure_pub_sub.Broker.Router.{AgentRegistration}
use secure_pub_sub.Broker.Router.Valid.{IsValid}
use secure_pub_sub.Broker.Router.Registered.{registered, register-cases}
use secure_pub_sub.Broker.Router.Requeued.{
  is_current-get, disconnect_current, drained-all, own_channel, unsent, requeued,
}
use secure_pub_sub.Broker.Router.Mailbox.{
  waiting, in_channel_absent, in_channel_connected, in_channel_same, waiting_connected,
}

module _ (m : Mpsc) (b : IsBounded m) where
  module _ (r : Router.BrokerRouter m) (g : AgentRegistration) (first : Option Bytes)
      (h : IsValid m b r) (live : Router.is_current m g.identity g.generation r ≡ true) where
    unsent_all :
        unsent m b r h g first live
        ≡ Router.first_frame m first ++ (g.pending ++ waiting m b r g.identity)
    unsent_all =
        let (c, e) = own_channel m b r h g first live in
        let (_, _, found) = drained-all m b r h g first live c e in
        let present = is_current-get m b r h g.identity g.generation live in
        ap (λ fs. Router.first_frame m first ++ fs)
          (found
            ∙ ap (λ fs. g.pending ++ fs)
                (sym (waiting_connected m b r h g.identity g.generation c present e)))

    own_waits :
        waiting m b (requeued m b r h g first live) g.identity
        ≡ take r.offline.depth (unsent m b r h g first live)
    unfolding waiting Refines.push_front
    own_waits =
        let present = is_current-get m b r h g.identity g.generation live in
        let frames = unsent m b r h g first live in
        let gone : Map.get g.identity (Map.remove g.identity r.connections) ≡ none =
          ground
            (arith, ==_refl g.identity, get-remove g.identity g.identity r.connections h.is_map) in
        rw (in_channel_absent m b (requeued m b r h g first live) g.identity gone) (
          (Refines.queue-prepend r.offline h.offline_valid g.identity frames g.identity).0
          ∙ rw (==_refl g.identity, h.idle g.identity g.generation present, append-nil frames) refl)

    others_wait :
        (j : AgentId)
        → (j == g.identity) ≡ false
        → waiting m b (requeued m b r h g first live) j ≡ waiting m b r j
    unfolding waiting Refines.push_front
    others_wait j f =
        let present = is_current-get m b r h g.identity g.generation live in
        let (c, e) = own_channel m b r h g first live in
        let (_, emptied, _) = drained-all m b r h g first live c e in
        ap₂ (λ x y. x ++ y)
          (in_channel_same m b r (requeued m b r h g first live) j
            (ground (arith, get-remove g.identity j r.connections h.is_map))
            (λ k held. emptied.elsewhere k (
              ground (
                arith,
                (h.known g.identity g.generation present).1 j,
                nat_eq_iff k g.generation,
                ==_iff j g.identity,
              ))))
          ((Refines.queue-prepend r.offline h.offline_valid g.identity (unsent m b r h g first live)
              j).0
            ∙ rw f refl)

  -- In a valid router, ending a registration that is still current leaves for its agent, in this
  -- order, the frame that was being sent, the frames pending in the registration and those that
  -- waited, cut at the end to the depth of the offline store; nothing changes for another agent.
  pub disconnect-waiting :
      (r : Router.BrokerRouter m) (g : AgentRegistration) (first : Option Bytes) (j : AgentId)
      → IsValid m b r
      → Router.is_current m g.identity g.generation r ≡ true
      → waiting m b (Router.disconnect_and_requeue m g first r).0.1 j ≡ (
          if j == g.identity
          then take r.offline.depth
              (Router.first_frame m first ++ (g.pending ++ waiting m b r g.identity))
          else waiting m b r j)
  disconnect-waiting r g first j h live =
      rw (disconnect_current m b r h g first live) (elim (Bool-cases (j == g.identity)) [
        | inl t ↦
            rw (t, (==_iff j g.identity).0 t)
              (own_waits r g first h live ∙ ap (take r.offline.depth) (unsent_all r g first h live))
        | inr f ↦ rw f (others_wait r g first h live j f)
      ])

  -- The registration of an agent took its frames; when it is refused, nothing changed.
  abbrev pub Captured :
      Router.BrokerRouter m
      → AgentId
      → Router.BrokerRouter m × Result RouteError AgentRegistration
      → Type 0
  Captured r id (r', ok g) =
      (g.identity ≡ id)
      × (g.pending ≡ waiting m b r id)
      × ((j : AgentId) → waiting m b r' j ≡ (if j == id then [] else waiting m b r j))
  Captured r id (r', err _) = (j : AgentId) → waiting m b r' j ≡ waiting m b r j

  module _ (r : Router.BrokerRouter m) (id : AgentId) (h : IsValid m b r)
      (absent : Map.get id r.connections ≡ none) where
    pending_waits : (Offline.take_all id r.offline).1 ≡ waiting m b r id
    unfolding waiting
    pending_waits =
        (Refines.queue-take_all r.offline h.offline_valid id id).1
        ∙ ap (λ fs. fs ++ Refines.queue r.offline id) (sym (in_channel_absent m b r id absent))

    registered_waits :
        (j : AgentId)
        → waiting m b (registered m b r h id) j ≡ (if j == id then [] else waiting m b r j)
    unfolding waiting
    registered_waits j =
        let queued = (Refines.queue-take_all r.offline h.offline_valid id j).0 in
        elim (Bool-cases (j == id)) [
          | inl t ↦
              rw
                (
                  t,
                  (==_iff j id).0 t,
                  in_channel_connected m b (registered m b r h id) id r.generation
                      (m.channel r.online_depth) (get-insert_self id r.generation r.connections)
                      (get-insert_self r.generation (m.channel r.online_depth) r.channels),
                  b.buffer-channel r.online_depth,
                  (Refines.queue-take_all r.offline h.offline_valid id id).0,
                  ==_refl id,
                )
                refl
          | inr f ↦
              let kept : Refines.queue (Offline.take_all id r.offline).0 j
                  ≡ Refines.queue r.offline j =
                queued ∙ rw f refl in
              rw f (
                ap₂ (λ x y. x ++ y)
                  (in_channel_same m b r (registered m b r h id) j
                    (ground (arith, get-insert id j r.generation r.connections))
                    (λ k held. ground (
                      arith,
                      get-insert r.generation k (m.channel r.online_depth) r.channels,
                      (h.known j k held).0,
                      nat_eq_iff k r.generation,
                    )))
                  kept)
        ]

  -- In a valid router, a registration that succeeds takes all the frames that wait for its agent,
  -- in their order, and leaves none behind; a refused one changes no waiting frame, nor does any
  -- for another agent.
  pub register-Captured :
      (r : Router.BrokerRouter m) (id : AgentId)
      → IsValid m b r
      → Captured r id (Router.register m id r)
  register-Captured r id h = elim (register-cases m b r h id) [
    | inl (x, e) ↦ rw e (λ j. refl)
    | inr (user, absent, room, e) ↦
        rw e (refl, pending_waits r id h absent, registered_waits r id h absent)
  ]
