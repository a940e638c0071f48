-- ===== src/Broker/Router/Access.antt =====
-- What the checks of the broker on a frame let through: `route_agent_request` and `route_ca_delivery`
-- of implementations/rust/crates/broker-core/src/lib.rs.
use secure_pub_sub.Prelude.{
  ◌≡◌, ◌≢◌, ◌↔◌, refl, sym, ap, Bool, true, false, ◌||◌, ◌&&◌, not, arith, Bytes, Result, ok, err,
  ok-injective, subst, if◌then◌else◌, ==_iff, ◌==◌, ℕ-Eq, List-Eq,
}
use secure_pub_sub.Protocol.Types.{
  AgentId, ca_id, MessageType, publication_response, message_eq, Error, bad_signature,
  wrong_message_type,
}
use secure_pub_sub.Protocol.Codec.{EnvelopeRef, parse_envelope}
use secure_pub_sub.Broker.Errors.{RouteError, protocol}
use secure_pub_sub.Broker.Channel.{Mpsc}
use secure_pub_sub.Broker.Router

-- A request of this agent to the CA.
abbrev pub IsRequest : AgentId → EnvelopeRef → Type 0
IsRequest id envelope =
    (envelope.sender ≡ id)
    × (envelope.sender ≢ ca_id)
    × (envelope.recipient ≡ ca_id)
    × (envelope.message_type ≢ publication_response)

-- A publication response of the CA to this agent.
abbrev pub IsDelivery : AgentId → EnvelopeRef → Type 0
IsDelivery id envelope =
    (envelope.sender ≡ ca_id)
    × (envelope.recipient ≢ ca_id)
    × (envelope.message_type ≡ publication_response)
    × (envelope.recipient ≡ id)

not-true : (t : Bool) → (t ≢ true) → t ≡ false
not-true t h = ground arith

is_request_iff : (t : MessageType) → (Router.is_request t ≡ true) ↔ (t ≢ publication_response)
is_request_iff t = (λ h e. ground arith, λ h. ground arith)

message_eq_iff :
    (t : MessageType) → (message_eq t publication_response ≡ true) ↔ (t ≡ publication_response)
message_eq_iff t = (λ h. ground arith, λ h. ground arith)

-- The tests on an envelope of a request, and of a delivery.
request_test : AgentId → EnvelopeRef → Result RouteError (Unit {0})
request_test id v =
    if not (v.sender == id)
    then err (protocol bad_signature)
    else if Router.is_request v.message_type && (not (v.sender == ca_id) && (v.recipient == ca_id))
    then ok tt
    else err (protocol wrong_message_type)

request_test_iff : (id : AgentId) (v : EnvelopeRef) → (request_test id v ≡ ok tt) ↔ IsRequest id v
unfolding request_test
request_test_iff id v = (
  λ h. (
    ground (arith, ==_iff v.sender id),
    λ e. ground (arith, ==_iff v.sender ca_id),
    ground (arith, ==_iff v.recipient ca_id),
    λ e. ground (arith, is_request_iff v.message_type),
  ),
  λ (own, user, to_ca, kind).
      let t1 = (==_iff v.sender id).1 own in
      let t2 = not-true (v.sender == ca_id) (λ t. user ((==_iff v.sender ca_id).0 t)) in
      let t3 = (==_iff v.recipient ca_id).1 to_ca in
      let t4 = (is_request_iff v.message_type).1 kind in rw (t1, t2, t3, t4) refl,
)

delivery_test : EnvelopeRef → Result RouteError AgentId
delivery_test v =
    if not (v.sender == ca_id)
      || ((v.recipient == ca_id) || not (message_eq v.message_type publication_response))
    then err (protocol wrong_message_type)
    else ok v.recipient

delivery_test_iff : (id : AgentId) (v : EnvelopeRef) → (delivery_test v ≡ ok id) ↔ IsDelivery id v
unfolding delivery_test
delivery_test_iff id v = (
  λ h. (
    ground (arith, ==_iff v.sender ca_id),
    λ e. ground (arith, ==_iff v.recipient ca_id),
    ground (arith, message_eq_iff v.message_type),
    ground arith,
  ),
  λ (from_ca, user, kind, own).
      let t1 = (==_iff v.sender ca_id).1 from_ca in
      let t2 = not-true (v.recipient == ca_id) (λ t. user ((==_iff v.recipient ca_id).0 t)) in
      let t3 = (message_eq_iff v.message_type).1 kind in rw (t1, t2, t3) (ap ok own),
)

module _ (m : Mpsc) where
  -- The checks let a frame of an agent's connection through exactly when it is an envelope from this
  -- agent, which is not the CA, to the CA, of a type that agents send.
  pub check_request_iff :
      (id : AgentId) (frame : Bytes)
      → (Router.check_request m id frame ≡ ok tt)
        ↔ ((v : EnvelopeRef) × (parse_envelope frame ≡ ok v) × IsRequest id v)
  unfolding Router.check_request request_test
  check_request_iff id frame = go (parse_envelope frame) refl
    where
      go :
          (x : Result Error EnvelopeRef)
          → parse_envelope frame ≡ x
          → (Router.check_request m id frame ≡ ok tt)
            ↔ ((v : EnvelopeRef) × (parse_envelope frame ≡ ok v) × IsRequest id v)
      go (err x) e = rw (Router.check_request, e) (λ h. absurd (cc), λ (v, k, _). absurd (cc))
      go (ok v) e =
          rw (Router.check_request, e)
            (
              λ h. (v, refl, (request_test_iff id v).0 h),
              λ (w, k, request).
                  (request_test_iff id v).1 (subst (IsRequest id) (sym (ok-injective k)) request),
            )

  -- The checks let a frame of the CA's link through to an agent exactly when it is an envelope from
  -- the CA with a publication response for this agent, which is not the CA.
  pub check_delivery_iff :
      (id : AgentId) (frame : Bytes)
      → (Router.check_delivery m frame ≡ ok id)
        ↔ ((v : EnvelopeRef) × (parse_envelope frame ≡ ok v) × IsDelivery id v)
  unfolding Router.check_delivery delivery_test
  check_delivery_iff id frame = go (parse_envelope frame) refl
    where
      go :
          (x : Result Error EnvelopeRef)
          → parse_envelope frame ≡ x
          → (Router.check_delivery m frame ≡ ok id)
            ↔ ((v : EnvelopeRef) × (parse_envelope frame ≡ ok v) × IsDelivery id v)
      go (err x) e = rw (Router.check_delivery, e) (λ h. absurd (cc), λ (v, k, _). absurd (cc))
      go (ok v) e =
          rw (Router.check_delivery, e)
            (
              λ h. (v, refl, (delivery_test_iff id v).0 h),
              λ (w, k, delivery).
                  (delivery_test_iff id v).1
                    (subst (IsDelivery id) (sym (ok-injective k)) delivery),
            )
