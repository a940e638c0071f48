-- ===== src/Agent/Receive/Delivered.antt =====
-- A delivery of the authority (implementations/rust/crates/ca-core/src/lib.rs) at the agent that it is
-- for (implementations/rust/crates/agent-core/src/lib.rs).
use secure_pub_sub.Prelude.{
  ℕ, ◌≡◌, ◌≢◌, refl, sym, ap, ◌∙◌, subst, true, false, length, ◌==◌, ==_refl, Bytes, ok,
  ok-injective, ℕ-Eq, List-Eq,
}
use secure_pub_sub.Protocol.Types.{
  AgentId, TypeId, HandlerId, message_eq, publication_response, ca_id, no_handler,
}
use secure_pub_sub.Protocol.Operation.Wire.{response, IsOperation}
use secure_pub_sub.Protocol.Codec.{EnvelopeRef, parse_envelope}
use secure_pub_sub.Protocol.Primitives.{Primitives, IsSound, CryptoRandom, Fills}
use secure_pub_sub.Protocol.Crypto.{verify_envelope_signature, zero_secret}
use secure_pub_sub.Protocol.Crypto.Opens.{open-Authentic}
use secure_pub_sub.Ca.Guard.{EnvironmentPolicy}
use secure_pub_sub.Ca.Handler.{World}
use secure_pub_sub.Ca.Process.{CaKeys, delivery}
use secure_pub_sub.Ca.Process.Delivered.{delivery-opens}
use secure_pub_sub.Agent.Requests.{AgentKeys, Agent}
use secure_pub_sub.Agent.Requests.Sealed.{enrolled}
use secure_pub_sub.Agent.Receive.{ReplayProtector, inspect, unpack, receive}
use secure_pub_sub.Agent.Receive.Accepted.{receive-inspected}

-- A frame that passes each of the agent's checks.
inspect-passes :
    (p : Primitives) (agent : Agent) (frame : Bytes) (handler : HandlerId) (e : EnvelopeRef)
    → p.is_verifying_key agent.ca.ed25519 ≡ true
    → parse_envelope frame ≡ ok e
    → e.recipient ≡ agent.id
    → e.message_type ≡ publication_response
    → e.handler ≡ handler
    → (handler == no_handler) ≡ false
    → p.verify_strict agent.ca.ed25519 e.signed_bytes e.signature ≡ true
    → inspect p agent frame handler ≡ ok e
unfolding inspect verify_envelope_signature
inspect-passes p agent frame handler e usable parsed to typed handled named signed =
    let addressed : (e.recipient == agent.id) ≡ true =
      ap (λ a. a == agent.id) to ∙ ==_refl agent.id in
    let same : (e.handler == handler) ≡ true = ap (λ a. a == handler) handled ∙ ==_refl handler in
    let response : message_eq e.message_type publication_response ≡ true =
      ap (λ t. message_eq t publication_response) typed in
    rw (usable, parsed, addressed, response, same, named, signed) refl

module _ (p : Primitives) (sound : IsSound p) (r : CryptoRandom) (fills : Fills r)
    (policy : EnvironmentPolicy) (ca : CaKeys) (s : ReplayProtector) (publisher recipient : AgentId)
    (keys : AgentKeys) (handler : HandlerId) (type_id : TypeId) (value : Bytes)
    (sendable : IsOperation (response type_id publisher value))
    (recipient_width : length recipient ≡ 16) (handler_width : length handler ≡ 16)
    (named : (handler == no_handler) ≡ false)
    (strong : (ephemeral : Bytes)
      → p.diffie_hellman ephemeral (p.x25519_public keys.x25519) ≢ zero_secret)
    (w : World r) (now : ℕ) (replay : s.State)
    (fresh : (s.check_and_mark ca_id (r.fill_bytes 16 w.rng).1 now replay).1 ≡ ok tt) where
  -- With sound primitives and a generator that fills its arrays: a delivery within the bounds of the
  -- protocol, for an agent with an identifier of 16 bytes and a handler of 16 bytes that is not the
  -- reserved one, when no agreement with the agent is zero, is made by the authority under the
  -- agent's public key, and the agent receives it as exactly the type, the publisher and the value of
  -- the publication, whenever its replay protection does not refuse the session.
  pub delivery-received :
      (frame : Bytes) × (w' : World r) × (delivery p r policy ca publisher recipient handler type_id
          value
          (p.x25519_public keys.x25519)
          w
        ≡ (w', ok frame))
      × (receive p (enrolled p recipient keys ca) frame handler s now replay ≡ (
        (s.check_and_mark ca_id (r.fill_bytes 16 w.rng).1 now replay).0,
        ok (record { type_id = type_id; publisher = publisher; handler = handler; value = value }),
      ))
  unfolding unpack
  delivery-received =
      let (frame, w', made, opened, contents, e, parsed, typed, from, to, handled, drawn) =
        delivery-opens p sound r fills policy ca publisher recipient handler type_id value
          keys.x25519 sendable recipient_width handler_width strong w in
      let (e', parsed', authentic) =
        open-Authentic p frame recipient publication_response (p.verifying_key ca.signing)
          keys.x25519 opened in
      let same : e' ≡ e = ok-injective (sym parsed' ∙ parsed) in
      let signed : p.verify_strict (p.verifying_key ca.signing) e.signed_bytes e.signature ≡ true =
        subst (λ x. p.verify_strict (p.verifying_key ca.signing) x.signed_bytes x.signature ≡ true)
          same authentic.signed in
      let inspected =
        inspect-passes p (enrolled p recipient keys ca) frame handler e
          (sound.well_formed ca.signing) parsed to typed handled named signed in
      (
        frame,
        w',
        made,
        receive-inspected p (enrolled p recipient keys ca) frame handler s now replay e inspected
            ∙ rw (from, drawn, fresh, opened, contents) refl,
      )
