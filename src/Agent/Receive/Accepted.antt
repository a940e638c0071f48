-- ===== src/Agent/Receive/Accepted.antt =====
-- What `Agent::receive` of implementations/rust/crates/agent-core/src/lib.rs accepts.
use secure_pub_sub.Prelude.{
  ℕ, ◌≡◌, ◌≢◌, inl, inr, refl, sym, ap, subst, ◌∙◌, true, not, ◌&&◌, &&-eq-true, ◌==◌, ==_iff,
  Bytes, ok, err, ensure-eq-ok, >>=-eq-ok, ◌>>◌, Result-cases, ok-injective, ℕ-Eq, List-Eq, arith,
}
use secure_pub_sub.Protocol.Types.{
  HandlerId, MessageType, message_eq, publication_response, Error, no_handler, bad_signature,
  wrong_recipient, wrong_message_type, wrong_handler,
}
use secure_pub_sub.Protocol.Codec.{EnvelopeRef, parse_envelope}
use secure_pub_sub.Protocol.Operation.{OperationRef, parse_operation}
use secure_pub_sub.Protocol.Operation as Operation
use secure_pub_sub.Protocol.Primitives.{Primitives}
use secure_pub_sub.Protocol.Crypto.{verify_envelope_signature, open_in_place}
use secure_pub_sub.Agent.Requests.{Agent}
use secure_pub_sub.Agent.Receive.{ReplayProtector, Delivery, as_delivery, inspect, unpack, receive}

-- An envelope of a response that is for an agent and for one handler of it, and signed by the
-- authority.
pub record IsResponse (p : Primitives) (agent : Agent) (handler : HandlerId) (e : EnvelopeRef)
    : Type 0 where
  pub addressed : e.recipient ≡ agent.id
  pub typed : e.message_type ≡ publication_response
  pub handled : e.handler ≡ handler
  pub named : handler ≢ no_handler
  pub signed : p.verify_strict agent.ca.ed25519 e.signed_bytes e.signature ≡ true

message_eq→eq :
    (t : MessageType) → message_eq t publication_response ≡ true → t ≡ publication_response
message_eq→eq t h = ground arith

as_delivery-eq-ok :
    (handler : HandlerId) (o : OperationRef) (d : Delivery)
    → as_delivery handler o ≡ ok d
    → (o ≡ Operation.publication_response d.type_id d.publisher d.value) × (d.handler ≡ handler)
as_delivery-eq-ok handler (Operation.publication_response type_id publisher value) d h =
    let same = ok-injective (sym h) in
    (
      ap (λ (x : Delivery). Operation.publication_response x.type_id x.publisher x.value)
          (sym same),
      ap (λ (x : Delivery). x.handler) same,
    )
as_delivery-eq-ok handler (Operation.set_environment _) d h = absurd (cc)
as_delivery-eq-ok handler (Operation.subscribe _ _) d h = absurd (cc)
as_delivery-eq-ok handler (Operation.subscribe_permanent _ _) d h = absurd (cc)
as_delivery-eq-ok handler (Operation.publish _ _ _) d h = absurd (cc)

module _ (p : Primitives) (agent : Agent) (frame : Bytes) (handler : HandlerId) where
  pub inspect-IsResponse :
      (e : EnvelopeRef)
      → inspect p agent frame handler ≡ ok e
      → (parse_envelope frame ≡ ok e) × IsResponse p agent handler e
  unfolding inspect verify_envelope_signature
  inspect-IsResponse e' h =
      let (_, h0) = ensure-eq-ok (p.is_verifying_key agent.ca.ed25519) bad_signature _ h in
      let (e, parsed, h1) = >>=-eq-ok (parse_envelope frame) _ h0 in
      let (to, h2) = ensure-eq-ok (e.recipient == agent.id) wrong_recipient _ h1 in
      let (typed, h3) =
        ensure-eq-ok (message_eq e.message_type publication_response) wrong_message_type _ h2 in
      let (both, h4) =
        ensure-eq-ok (e.handler == handler && not (handler == no_handler)) wrong_handler _ h3 in
      let (signed, h5) =
        ensure-eq-ok (p.verify_strict agent.ca.ed25519 e.signed_bytes e.signature) bad_signature _
          h4 in
      let (handled, named) = &&-eq-true (e.handler == handler) (not (handler == no_handler)) both in
      subst (λ x. (parse_envelope frame ≡ ok x) × IsResponse p agent handler x) (ok-injective h5)
        (
          parsed,
          record {
            addressed = (==_iff e.recipient agent.id).0 to;
            typed = message_eq→eq e.message_type typed;
            handled = (==_iff e.handler handler).0 handled;
            named = λ none. cc (ap not ((==_iff handler no_handler).1 none), named);
            signed = signed;
          },
        )

  pub unpack-eq-ok :
      (d : Delivery)
      → unpack p agent frame handler ≡ ok d
      → (plaintext : Bytes) × (open_in_place p frame agent.id publication_response agent.ca.ed25519
            agent.keys.x25519
          ≡ ok plaintext)
        × (parse_operation plaintext
            ≡ ok (Operation.publication_response d.type_id d.publisher d.value))
        × (d.handler ≡ handler)
  unfolding unpack
  unpack-eq-ok d h =
      let (plaintext, opened, h0) =
        >>=-eq-ok
          (open_in_place p frame agent.id publication_response agent.ca.ed25519 agent.keys.x25519) _
          h in
      let (o, parsed, h1) = >>=-eq-ok (parse_operation plaintext) _ h0 in
      let (same, handled) = as_delivery-eq-ok handler o d h1 in
      (plaintext, opened, parsed ∙ ap (λ x. ok x) same, handled)

  module _ (s : ReplayProtector) (now : ℕ) (c : s.State) where
    pub receive-refused :
        (x : Error)
        → inspect p agent frame handler ≡ err x
        → receive p agent frame handler s now c ≡ (c, err x)
    unfolding receive
    receive-refused x h = rw (receive, h) refl

    pub receive-inspected :
        (e : EnvelopeRef)
        → inspect p agent frame handler ≡ ok e
        → receive p agent frame handler s now c ≡ (
          (s.check_and_mark e.sender e.session_id now c).0,
          (s.check_and_mark e.sender e.session_id now c).1 >> unpack p agent frame handler,
        )
    unfolding receive
    receive-inspected e h = rw (receive, h) refl

    -- When a frame is received as a delivery, it is an envelope of a response that is for the agent and
    -- for the expected handler, which is not the reserved one, and signed by the authority; the replay
    -- protection accepted its session, once, and holds it afterwards; and the envelope opens, with the
    -- agent's secret, to a response with the delivery's type, publisher and value.
    pub receive-IsResponse :
        (d : Delivery)
        → (receive p agent frame handler s now c).1 ≡ ok d
        → (e : EnvelopeRef) × (parse_envelope frame ≡ ok e)
          × IsResponse p agent handler e
          × (s.check_and_mark e.sender e.session_id now c
              ≡ ((receive p agent frame handler s now c).0, ok tt))
          × (plaintext : Bytes) × (open_in_place p frame agent.id publication_response
                agent.ca.ed25519 agent.keys.x25519
              ≡ ok plaintext)
          × (parse_operation plaintext
              ≡ ok (Operation.publication_response d.type_id d.publisher d.value))
          × (d.handler ≡ handler)
    receive-IsResponse d h = elim (Result-cases (inspect p agent frame handler)) [
      | inr (x, refused) ↦ absurd (cc (ap (λ q. q.1) (receive-refused x refused), h))
      | inl (e, inspected) ↦
          let whole = receive-inspected e inspected in
          let (parsed, response) = inspect-IsResponse e inspected in
          let (_, marked, unpacked) =
            >>=-eq-ok ((s.check_and_mark e.sender e.session_id now c).1) _
              (ap (λ q. q.1) (sym whole) ∙ h) in
          let (plaintext, opened, contents, handled) = unpack-eq-ok d unpacked in
          (
            e,
            parsed,
            response,
            ap (λ m. ((s.check_and_mark e.sender e.session_id now c).0, m)) marked
                ∙ ap (λ q. (q.0, ok tt)) (sym whole),
            plaintext,
            opened,
            contents,
            handled,
          )
    ]
