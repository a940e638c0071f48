-- ===== src/Broker/Router/Taken.antt =====
-- What `route_ca_delivery` takes from the CA, when no other operation runs between its two parts.
use secure_pub_sub.Prelude.{
  ℕ, ◌<◌, ◌≡◌, ◌⊎◌, refl, ap, sym, subst, ◌∙◌, false, [], ◌∷◌, ◌++◌, none, arith, leb, ltb, length,
  Bytes, Result, ok, err, is_ok, is_some, if◌then◌else◌, Bool-cases, Option-cases, inl, inr, ◌==◌,
  ℕ-Eq, List-Eq, ok-injective,
}
use secure_pub_sub.Prelude.Map
use secure_pub_sub.Protocol.Types.{AgentId}
use secure_pub_sub.Protocol.Codec.{EnvelopeRef, parse_envelope}
use secure_pub_sub.Broker.Errors.{RouteError}
use secure_pub_sub.Broker.Offline.Refines
use secure_pub_sub.Broker.Channel.{Mpsc, IsBounded}
use secure_pub_sub.Broker.Router
use secure_pub_sub.Broker.Router.Valid.{IsValid}
use secure_pub_sub.Broker.Router.Access.{IsDelivery, check_delivery_iff}
use secure_pub_sub.Broker.Router.Mailbox.{
  waiting, IsAlive, Joins, deliver-Joins, waiting_connected, in_channel_absent,
}
use secure_pub_sub.Broker.Router.Sends.{deliver-absent, deliver-full, deliver-room}

-- The frame is a publication response of the CA to this agent.
abbrev pub CarriesDelivery : AgentId → Bytes → Type 0
CarriesDelivery id frame = (v : EnvelopeRef) × (parse_envelope frame ≡ ok v) × IsDelivery id v

module _ (m : Mpsc) (b : IsBounded m) where
  -- How many frames may wait for an agent.
  abbrev pub limit : Router.BrokerRouter m → AgentId → ℕ
  limit r id = if is_some (Map.get id r.connections) then r.online_depth else r.offline.depth

  module _ (r : Router.BrokerRouter m) (id : AgentId) (frame : Bytes) (h : IsValid m b r) where
    stored-is_ok :
        Map.get id r.connections ≡ none
        → is_ok (Router.store_offline m id frame r).1
          ≡ ltb (length (waiting m b r id)) r.offline.depth
    unfolding Router.store_offline Refines.push_back waiting
    stored-is_ok absent =
        let (_, result) = Refines.queue-enqueue r.offline h.offline_valid id frame id in
        ground (arith, result, in_channel_absent m b r id absent)

    -- A delivery succeeds exactly when fewer frames wait than may.
    deliver-is_ok :
        IsAlive m b r id
        → is_ok (Router.deliver m id frame r).1 ≡ ltb (length (waiting m b r id)) (limit r id)
    deliver-is_ok alive = elim (Option-cases (Map.get id r.connections)) [
      | inl absent ↦ rw (deliver-absent m r id frame absent, absent) (stored-is_ok absent)
      | inr (g, e) ↦
          let (c, e') = h.opened id g e in
          let (wide, _) = h.fits g c e' in
          elim (Bool-cases (leb (b.capacity c) (length (b.buffer c)))) [
            | inl l ↦
                let refused = b.send_full frame c (alive g c e e') (ground arith) in
                rw
                  (
                    deliver-full m r id frame g c e e' (ap (λ x. x.1) refused),
                    waiting_connected m b r h id g c e e',
                    e,
                  )
                  (ground (arith, wide, l))
            | inr l ↦
                let (accepted, queued, _, _) =
                  b.send_room frame c (alive g c e e') (ground arith) in
                rw
                  (
                    deliver-room m r id frame g c e e' accepted,
                    waiting_connected m b r h id g c e e',
                    e,
                  )
                  (ground (arith, wide, l))
          ]
    ]

  -- The frame joins the frames for its recipient, who may have another one waiting; or it is refused,
  -- and every agent's frames stay as they are.
  abbrev pub TakesDelivery :
      Bytes → Router.BrokerRouter m → Router.BrokerRouter m × Result RouteError (Unit {0}) → Type 0
  TakesDelivery frame r (r', result) =
      ((id : AgentId) × CarriesDelivery id frame
        × (length (waiting m b r id) < limit r id)
        × (result ≡ ok tt)
        × ((j : AgentId)
            → waiting m b r' j
              ≡ (if j == id then waiting m b r id ++ frame ∷ [] else waiting m b r j)))
      ⊎ ((¬ ((id : AgentId) × CarriesDelivery id frame × (length (waiting m b r id) < limit r id)))
          × (is_ok result ≡ false)
          × ((j : AgentId) → waiting m b r' j ≡ waiting m b r j))

  same_recipient :
      (frame : Bytes) (i j : AgentId) → CarriesDelivery i frame → CarriesDelivery j frame → i ≡ j
  same_recipient frame i j a c =
      ok-injective (sym ((check_delivery_iff m i frame).1 a) ∙ (check_delivery_iff m j frame).1 c)

  module _ (r : Router.BrokerRouter m) (frame : Bytes) (id : AgentId) (h : IsValid m b r)
      (alive : IsAlive m b r id) (carried : CarriesDelivery id frame) where
    deliver-Takes : TakesDelivery frame r (Router.deliver m id frame r)
    deliver-Takes = go (Router.deliver m id frame r) refl
      where
        go :
            (x : Router.BrokerRouter m × Result RouteError (Unit {0}))
            → Router.deliver m id frame r ≡ x
            → TakesDelivery frame r x
        go (r', ok tt) e = inl (
          id,
          carried,
          ground (arith, deliver-is_ok r id frame h alive, e),
          refl,
          subst (Joins m b r id frame) e (deliver-Joins m b r id frame h alive),
        )
        go (r', err x) e = inr (
          λ (j, other, room).
              let same = same_recipient frame j id other carried in
              ground (arith, deliver-is_ok r id frame h alive, e, same, room),
          refl,
          subst (Joins m b r id frame) e (deliver-Joins m b r id frame h alive),
        )

  -- In a valid router whose connections' channels, bounded ones, all have their receivers, with no
  -- other operation between the two parts of the delivery: either the frame from the CA is an
  -- envelope from the CA with a publication response for an agent, which is not the CA, and fewer
  -- frames wait for that agent than its limit, the online depth if it is connected and the offline
  -- depth if it is not; then the result is `ok` and the frame joins the end of that agent's frames. Or
  -- this is not so; then the result is an error and no agent's frames change.
  pub route_ca_delivery-Takes :
      (frame : Bytes) (r : Router.BrokerRouter m)
      → IsValid m b r
      → ((id : AgentId) → IsAlive m b r id)
      → TakesDelivery frame r (Router.route_ca_delivery m frame r)
  unfolding Router.route_ca_delivery
  route_ca_delivery-Takes frame r h alive = go (Router.check_delivery m frame) refl
    where
      go :
          (x : Result RouteError AgentId)
          → Router.check_delivery m frame ≡ x
          → TakesDelivery frame r (Router.route_ca_delivery m frame r)
      go (err x) e =
          rw (Router.route_ca_delivery, e)
            (inr (
              λ (id, carried, _). absurd (cc ((check_delivery_iff m id frame).1 carried, e)),
              refl,
              λ j. refl,
            ))
      go (ok id) e =
          rw (Router.route_ca_delivery, e)
            (deliver-Takes r frame id h (alive id) ((check_delivery_iff m id frame).0 e))
