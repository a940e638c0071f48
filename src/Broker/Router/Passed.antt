-- ===== src/Broker/Router/Passed.antt =====
-- What `route_agent_request` passes on to the CA.
use secure_pub_sub.Prelude.{
  ◌<◌, ◌≡◌, ◌↔◌, refl, false, [], ◌∷◌, ◌++◌, arith, leb, nat_eq, length, Bytes, Result, ok, err,
  is_ok, if◌then◌else◌, Bool-cases, inl, inr, ℕ-Eq, List-Eq,
}
use secure_pub_sub.Protocol.Types.{AgentId}
use secure_pub_sub.Protocol.Codec.{EnvelopeRef, parse_envelope}
use secure_pub_sub.Broker.Errors.{RouteError}
use secure_pub_sub.Broker.Channel.{Mpsc, IsBounded}
use secure_pub_sub.Broker.Router
use secure_pub_sub.Broker.Router.Access.{IsRequest, check_request_iff}

module _ (m : Mpsc) (b : IsBounded m) where
  -- The queue of the CA takes another frame.
  abbrev pub TakesRequest : Router.BrokerRouter m → Type 0
  TakesRequest r =
      (nat_eq r.ca_depth 0 ≡ false)
      × (b.is_closed r.ca ≡ false)
      × (length (b.buffer r.ca) < b.capacity r.ca)

  -- The frame is a request of this agent.
  abbrev pub CarriesRequest : AgentId → Bytes → Type 0
  CarriesRequest id frame = (v : EnvelopeRef) × (parse_envelope frame ≡ ok v) × IsRequest id v

  -- The frame goes to the back of the CA's queue exactly when the result is `ok`, which is so exactly
  -- when it is a request of this agent and the queue takes it. Nothing else in the router changes.
  abbrev pub PassesRequest :
      AgentId
      → Bytes
      → Router.BrokerRouter m
      → Router.BrokerRouter m × Result RouteError (Unit {0})
      → Type 0
  PassesRequest id frame r (r', result) =
      ((result ≡ ok tt) ↔ (CarriesRequest id frame × TakesRequest r))
      × (b.buffer r'.ca ≡ (if is_ok result then b.buffer r.ca ++ frame ∷ [] else b.buffer r.ca))
      × (r' ≡ record r { ca = r'.ca })

  module _ (id : AgentId) (frame : Bytes) (r : Router.BrokerRouter m) where
    -- A request that passes the checks.
    checked-PassesRequest :
        CarriesRequest id frame
        → Router.check_request m id frame ≡ ok tt
        → PassesRequest id frame r (Router.route_agent_request m id frame r)
    unfolding Router.route_agent_request
    checked-PassesRequest carried e = elim (Bool-cases (nat_eq r.ca_depth 0)) [
      | inl z ↦
          rw (Router.route_agent_request, e, z)
            ((λ k. absurd (cc), λ (_, (wide, _, _)). absurd (cc)), refl, refl)
      | inr z ↦ elim (Bool-cases (b.is_closed r.ca)) [
        | inl l ↦
            rw (Router.route_agent_request, e, z, b.send_closed frame r.ca l)
              ((λ k. absurd (cc), λ (_, (_, alive, _)). absurd (cc)), refl, refl)
        | inr l ↦ elim (Bool-cases (leb (b.capacity r.ca) (length (b.buffer r.ca)))) [
          | inl n ↦
              rw (Router.route_agent_request, e, z, b.send_full frame r.ca l (ground arith))
                ((λ k. absurd (cc), λ (_, (_, _, room)). ground arith), refl, refl)
          | inr n ↦
              let (accepted, queued, _, _) = b.send_room frame r.ca l (ground arith) in
              rw (Router.route_agent_request, e, z, accepted)
                ((λ k. (carried, (refl, l, ground arith)), λ k. refl), queued, refl)
        ]
      ]
    ]

  -- For a frame on an agent's connection, with a channel to the CA that is bounded: the broker puts the
  -- frame at the back of the CA's queue and returns `ok` exactly when it is an envelope from this
  -- agent, which is not the CA, to the CA, of a type that agents send, and the queue takes frames
  -- (depth not 0, receiver there, room left). Otherwise it returns an error and the CA's queue does not
  -- change; the rest of the router never does.
  pub request-Passes :
      (id : AgentId) (frame : Bytes) (r : Router.BrokerRouter m)
      → PassesRequest id frame r (Router.route_agent_request m id frame r)
  unfolding Router.route_agent_request
  request-Passes id frame r = go (Router.check_request m id frame) refl
    where
      go :
          (x : Result RouteError (Unit {0}))
          → Router.check_request m id frame ≡ x
          → PassesRequest id frame r (Router.route_agent_request m id frame r)
      go (err x) e =
          rw (Router.route_agent_request, e)
            (
              (
                λ k. absurd (cc),
                λ (carried, _). absurd (cc ((check_request_iff m id frame).1 carried, e)),
              ),
              refl,
              refl,
            )
      go (ok tt) e = checked-PassesRequest id frame r ((check_request_iff m id frame).0 e) e
