-- ===== src/Broker/Router/Mailbox.antt =====
-- The frames that wait for an agent, in the order in which they will reach it.
use secure_pub_sub.Prelude.{
  ℕ, ◌≡◌, refl, ap, sym, subst, false, List, [], ◌∷◌, ◌++◌, none, some, arith, leb, nat_eq_iff,
  length, append-nil, ◌&&◌, Bytes, Result, ok, err, is_ok, if◌then◌else◌, ==_iff, ◌==◌, ℕ-Eq,
  List-Eq, Bool-cases, inl, inr, Option-cases,
}
use secure_pub_sub.Prelude.Map
use secure_pub_sub.Prelude.Map.{
  Map, IsMap, get-insert, get-insert_self, get-remove, insert-IsMap, remove-IsMap, length-insert,
  length-remove,
}
use secure_pub_sub.Protocol.Types.{AgentId}
use secure_pub_sub.Broker.Errors.{RouteError, online_queue_full}
use secure_pub_sub.Broker.Offline.Refines
use secure_pub_sub.Broker.Channel.{Mpsc, IsBounded}
use secure_pub_sub.Broker.Router
use secure_pub_sub.Broker.Router.{AgentRegistration}
use secure_pub_sub.Broker.Router.Valid.{IsValid}
use secure_pub_sub.Broker.Router.Sends.{deliver-absent, deliver-full, deliver-room}

module _ (m : Mpsc) (b : IsBounded m) where
  -- The frames in the channel of a connection.
  unfoldable pub in_channel : Router.BrokerRouter m → AgentId → List Bytes
  in_channel r id = elim (Map.get id r.connections) [
    | none ↦ []
    | some g ↦ elim (Map.get g r.channels) [ none ↦ [] | some c ↦ b.buffer c ]
  ]

  -- A live connection's frames, and those in the offline store.
  unfoldable pub waiting : Router.BrokerRouter m → AgentId → List Bytes
  waiting r id = in_channel r id ++ Refines.queue r.offline id

  -- The registration of an agent holds the receiver that the connection sends to.
  abbrev pub IsAlive : Router.BrokerRouter m → AgentId → Type 0
  IsAlive r id =
      (g : ℕ) (c : m.Channel)
      → Map.get id r.connections ≡ some g
      → Map.get g r.channels ≡ some c
      → b.is_closed c ≡ false

  module _ (r : Router.BrokerRouter m) (id : AgentId) where
    pub in_channel_absent : Map.get id r.connections ≡ none → in_channel r id ≡ []
    unfolding in_channel
    in_channel_absent e = rw (in_channel, e) refl

    pub in_channel_connected :
        (g : ℕ) (c : m.Channel)
        → Map.get id r.connections ≡ some g
        → Map.get g r.channels ≡ some c
        → in_channel r id ≡ b.buffer c
    unfolding in_channel
    in_channel_connected g c e e' = rw (in_channel, e, e') refl

  -- The connection of an agent and its channel decide what is in the channel.
  pub in_channel_same :
      (r r' : Router.BrokerRouter m) (j : AgentId)
      → Map.get j r'.connections ≡ Map.get j r.connections
      → ((g : ℕ) → Map.get j r.connections ≡ some g → Map.get g r'.channels ≡ Map.get g r.channels)
      → in_channel r' j ≡ in_channel r j
  unfolding in_channel
  in_channel_same r r' j e f = elim (Option-cases (Map.get j r.connections)) [
    | inl absent ↦ rw (in_channel, e, absent) refl
    | inr (g, present) ↦ rw (in_channel, e, present, f g present) refl
  ]

  module _ (r : Router.BrokerRouter m) (h : IsValid m b r) where
    pub waiting_connected :
        (id : AgentId) (g : ℕ) (c : m.Channel)
        → Map.get id r.connections ≡ some g
        → Map.get g r.channels ≡ some c
        → waiting r id ≡ b.buffer c
    unfolding waiting
    waiting_connected id g c e e' =
        rw (waiting, in_channel_connected r id g c e e', h.idle id g e) (append-nil (b.buffer c))

  -- The frame joins the end of the frames for its recipient exactly when the result is `ok`.
  abbrev pub Joins :
      Router.BrokerRouter m
      → AgentId
      → Bytes
      → Router.BrokerRouter m × Result RouteError (Unit {0})
      → Type 0
  Joins r id frame (r', result) =
      (j : AgentId)
      → waiting r' j
        ≡ (if is_ok result && (j == id) then waiting r id ++ frame ∷ [] else waiting r j)

  module _ (r : Router.BrokerRouter m) (h : IsValid m b r) (id : AgentId) (frame : Bytes) where
    stored-Joins :
        Map.get id r.connections ≡ none → Joins r id frame (Router.store_offline m id frame r)
    unfolding Router.store_offline Refines.push_back waiting
    stored-Joins absent j =
        let (queued, result) = Refines.queue-enqueue r.offline h.offline_valid id frame j in
        let r' = (Router.store_offline m id frame r).0 in
        let same = in_channel_same r r' j refl (λ g e. refl) in
        ground (arith, queued, result, in_channel_absent r id absent, same, ==_iff j id)

    module _ (g : ℕ) (c : m.Channel) (e : Map.get id r.connections ≡ some g)
        (e' : Map.get g r.channels ≡ some c) where
      abbrev sent_on : Router.BrokerRouter m
      sent_on = record r { channels = Map.insert g (m.try_send frame c).0 r.channels }

      others_wait : (j : AgentId) → (j == id) ≡ false → waiting sent_on j ≡ waiting r j
      unfolding waiting
      others_wait j f =
          ap (λ q. q ++ Refines.queue r.offline j)
            (in_channel_same r sent_on j refl (λ k present. ground (
              arith,
              get-insert g k (m.try_send frame c).0 r.channels,
              (h.known id g e).1 j,
              nat_eq_iff k g,
              ==_iff j id,
            )))

      own_waits : waiting sent_on id ≡ b.buffer (m.try_send frame c).0
      unfolding waiting
      own_waits =
          rw
            (
              waiting,
              in_channel_connected sent_on id g (m.try_send frame c).0 e
                  (get-insert_self g (m.try_send frame c).0 r.channels),
              h.idle id g e,
            )
            (append-nil (b.buffer (m.try_send frame c).0))

      waiting_on :
          (j : AgentId)
          → waiting sent_on j ≡ (if j == id then b.buffer (m.try_send frame c).0 else waiting r j)
      waiting_on j = elim (Bool-cases (j == id)) [
        | inl t ↦ rw (t, (==_iff j id).0 t) own_waits
        | inr f ↦ rw f (others_wait j f)
      ]

      room-Joins :
          b.buffer (m.try_send frame c).0 ≡ b.buffer c ++ frame ∷ []
          → Joins r id frame (sent_on, ok tt)
      room-Joins queued j = ground (arith, waiting_on j, queued, waiting_connected r h id g c e e')

      full-Joins :
          b.buffer (m.try_send frame c).0 ≡ b.buffer c
          → Joins r id frame (sent_on, err online_queue_full)
      full-Joins queued j =
          ground (arith, waiting_on j, queued, waiting_connected r h id g c e e', ==_iff j id)

  -- In a valid router, for a recipient whose connection's channel, if there is one, has its
  -- receiver: a delivery, with no other operation between its two parts, that succeeds puts the frame
  -- behind all the frames that wait for the recipient, and one that fails changes no waiting frame; nothing changes for another agent.
  pub deliver-Joins :
      (r : Router.BrokerRouter m) (id : AgentId) (frame : Bytes)
      → IsValid m b r
      → IsAlive r id
      → Joins r id frame (Router.deliver m id frame r)
  deliver-Joins r id frame h alive = elim (Option-cases (Map.get id r.connections)) [
    | inl absent ↦
        subst (Joins r id frame) (sym (deliver-absent m r id frame absent))
          (stored-Joins r h id frame absent)
    | inr (g, e) ↦
        let (c, e') = h.opened id g e in
        elim (Bool-cases (leb (b.capacity c) (length (b.buffer c)))) [
          | inl l ↦
              let refused = b.send_full frame c (alive g c e e') (ground arith) in
              subst (Joins r id frame)
                (sym (deliver-full m r id frame g c e e' (ap (λ x. x.1) refused)))
                (full-Joins r h id frame g c e e' (ap (λ x. b.buffer x.0) refused))
          | inr l ↦
              let (accepted, queued, _, _) = b.send_room frame c (alive g c e e') (ground arith) in
              subst (Joins r id frame) (sym (deliver-room m r id frame g c e e' accepted))
                (room-Joins r h id frame g c e e' queued)
        ]
  ]
