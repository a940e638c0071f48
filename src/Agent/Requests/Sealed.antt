-- ===== src/Agent/Requests/Sealed.antt =====
-- What the agents' requests of implementations/rust/crates/agent-core/src/lib.rs are: envelopes that the
-- authority opens.
use secure_pub_sub.Prelude.{
  ℕ, ◌+◌, ◌≤◌, ◌≡◌, ◌≢◌, refl, ap, ◌∙◌, false, ◌++◌, arith, le→leb, length, length-append,
  length-drop, length-replicate, length-slice, take, drop, slice, append_assoc, ◌==◌, Bytes, Result,
  ok, err, ℕ-Eq, List-Eq,
}
use secure_pub_sub.Protocol.Types.{
  AgentId, HandlerId, MessageType, ca_id, no_handler, max_frame_len, max_plaintext_len, Error,
  wrong_message_type,
}
use secure_pub_sub.Protocol.Types as Types
use secure_pub_sub.Protocol.Operation.Wire.{
  Operation, environment, subscription, permanent_subscription, publication, response, IsOperation,
  operation_bytes,
}
use secure_pub_sub.Protocol.Encode.RoundTrip.{encode_operation, encode-operation_bytes}
use secure_pub_sub.Protocol.Codec.{EnvelopeRef, parse_envelope}
use secure_pub_sub.Protocol.Primitives.{Primitives, IsSound, CryptoRandom, Fills}
use secure_pub_sub.Protocol.Crypto.{open_in_place, zero_secret}
use secure_pub_sub.Protocol.Crypto.Placed.{placed, length-placed, plaintext-placed}
use secure_pub_sub.Protocol.Crypto.RoundTrip.{open-seal_in_place}
use secure_pub_sub.Ca.Process.{CaKeys}
use secure_pub_sub.Agent.Requests.{
  AgentKeys, Agent, empty_frame, place, truncated, request_into, request_owned, set_environment,
  set_environment_into, subscribe, subscribe_into, subscribe_permanent_request,
  subscribe_permanent_into, publish, publish_into,
}

-- An agent that holds the public keys of an authority.
abbrev pub enrolled : Primitives → AgentId → AgentKeys → CaKeys → Agent
enrolled p id keys ca = record {
  id = id;
  keys = keys;
  ca = record { ed25519 = p.verifying_key ca.signing; x25519 = p.x25519_public ca.x25519 };
}

-- The type of the message that carries an operation.
abbrev pub type_of : Operation → MessageType
type_of (environment _) = Types.set_environment
type_of (subscription _ _) = Types.subscribe
type_of (permanent_subscription _ _) = Types.subscribe_permanent
type_of (publication _ _ _) = Types.publish
type_of (response _ _ _) = Types.publication_response

-- An operation that is a request, with the handler that its envelope names: one of its own for a
-- subscription, and else none.
abbrev pub IsRequest : HandlerId → Operation → Type 0
IsRequest handler (environment _) = handler ≡ no_handler
IsRequest handler (subscription _ _) = (handler == no_handler) ≡ false
IsRequest handler (permanent_subscription _ _) = (handler == no_handler) ≡ false
IsRequest handler (publication _ _ _) = handler ≡ no_handler
IsRequest handler (response _ _ _) = ⊥

-- The agent's method for a request.
abbrev pub request :
    (p : Primitives) (r : CryptoRandom)
    → Agent
    → Operation
    → HandlerId
    → r.State
    → r.State × Result Error Bytes
request p r agent (environment attributes) handler = set_environment p r agent attributes
request p r agent (subscription type_id cs) handler = subscribe p r agent type_id handler cs
request p r agent (permanent_subscription type_id cs) handler =
    subscribe_permanent_request p r agent type_id handler cs
request p r agent (publication type_id cs value) handler = publish p r agent type_id cs value
request p r agent (response _ _ _) handler = λ rng. (rng, err wrong_message_type)

request-into :
    (p : Primitives) (r : CryptoRandom) (agent : Agent) (o : Operation) (handler : HandlerId)
    (rng : r.State)
    → IsRequest handler o
    → request p r agent o handler rng
      ≡ truncated (
          request_into p r agent empty_frame
            (type_of o)
            handler
            (λ plain. encode_operation plain o)
            rng)
unfolding set_environment set_environment_into subscribe subscribe_into subscribe_permanent_request
    subscribe_permanent_into publish publish_into request_owned
request-into p r agent (environment attributes) handler rng h = rw h refl
request-into p r agent (subscription type_id cs) handler rng h = rw h refl
request-into p r agent (permanent_subscription type_id cs) handler rng h = rw h refl
request-into p r agent (publication type_id cs value) handler rng h = rw h refl
request-into p r agent (response type_id publisher value) handler rng h = absurd h

length-empty_frame : length empty_frame ≡ max_frame_len
unfolding empty_frame
length-empty_frame = length-replicate {A = ℕ} max_frame_len 0

wide : 148 ≤ length empty_frame
wide = omega (arith, length-empty_frame)

abbrev room : Bytes
room = slice empty_frame 148 4324

length-room : length room ≡ 4176
length-room = length-slice empty_frame 148 4324 (omega arith) (omega (arith, length-empty_frame))

-- The frame in which a message stands behind the header's place.
abbrev written : Bytes → Bytes
written m = placed empty_frame m (drop (length m) room ++ drop 4324 empty_frame) wide

length-written : (m : Bytes) → length m ≤ max_plaintext_len → length (written m) ≡ max_frame_len
length-written m short = omega (
  arith,
  short,
  length-room,
  length-empty_frame,
  length-placed empty_frame m (drop (length m) room ++ drop 4324 empty_frame) wide,
  length-append (drop (length m) room) (drop 4324 empty_frame),
  length-drop (length m) room,
  length-drop 4324 empty_frame,
)

place-operation :
    (o : Operation) (short : length (operation_bytes o) ≤ max_plaintext_len)
    → IsOperation o
    → place empty_frame (λ plain. encode_operation plain o)
      ≡ ok (written (operation_bytes o), length (operation_bytes o))
unfolding place
place-operation o short w =
    rw
      (
        le→leb 4324 (length empty_frame) (omega (arith, length-empty_frame)),
        encode-operation_bytes o (slice empty_frame 148 4324) w,
        le→leb (length (operation_bytes o)) (length (slice empty_frame 148 4324))
            (omega (arith, short, length-room)),
      )
      (ap (λ rest. ok (take 148 empty_frame ++ rest, length (operation_bytes o)))
        (append_assoc (operation_bytes o) (drop (length (operation_bytes o)) room)
          (drop 4324 empty_frame)))

module _ (p : Primitives) (sound : IsSound p) (r : CryptoRandom) (fills : Fills r) (id : AgentId)
    (keys : AgentKeys) (ca : CaKeys) (o : Operation) (handler : HandlerId) (valid : IsOperation o)
    (wanted : IsRequest handler o) (short : length (operation_bytes o) ≤ max_plaintext_len)
    (id_width : length id ≡ 16) (handler_width : length handler ≡ 16)
    (strong : (ephemeral : Bytes)
      → p.diffie_hellman ephemeral (p.x25519_public ca.x25519) ≢ zero_secret)
    (rng : r.State) where
  abbrev pub session : Bytes
  session = (r.fill_bytes 16 rng).1

  abbrev salted : r.State × Bytes
  salted = r.fill_bytes 32 (r.fill_bytes 16 rng).0

  abbrev ephemeral : r.State × Bytes
  ephemeral = r.ephemeral_secret salted.0

  -- The request is written, it is an envelope of the agent for the authority with the session that
  -- was drawn first, and the authority opens it to the encoding of the operation.
  pub request-opens :
      (frame : Bytes) × (rng' : r.State) × (request p r (enrolled p id keys ca) o handler rng
        ≡ (rng', ok frame))
      × (open_in_place p frame ca_id (type_of o) (p.verifying_key keys.signing) ca.x25519
          ≡ ok (operation_bytes o))
      × (e : EnvelopeRef) × (parse_envelope frame ≡ ok e)
      × (e.message_type ≡ type_of o)
      × (e.sender ≡ id)
      × (e.recipient ≡ ca_id)
      × (e.handler ≡ handler)
      × (e.session_id ≡ session)
  unfolding request_into
  request-opens =
      let n = length (operation_bytes o) in
      let output = written (operation_bytes o) in
      let (output', sealed, opened, e, parsed, fields) =
        open-seal_in_place p sound output n (type_of o) id ca_id handler session salted.1
          ephemeral.1 ca.x25519 keys.signing
          (record {
            sender = id_width;
            recipient = refl;
            handler = handler_width;
            session_id = fills 16 rng;
            ephemeral_public = sound.length-x25519_public ephemeral.1;
            salt = fills 32 (r.fill_bytes 16 rng).0;
          })
          short (omega (arith, short, length-written (operation_bytes o) short))
          (strong ephemeral.1) in
      (
        take (148 + n + 80) output',
        ephemeral.0,
        request-into p r (enrolled p id keys ca) o handler rng wanted
            ∙ rw (request_into, place-operation o short valid, sealed) refl,
        opened
            ∙ ap (λ m. ok m)
                (plaintext-placed empty_frame (operation_bytes o)
                  (drop (length (operation_bytes o)) room ++ drop 4324 empty_frame) wide),
        e,
        parsed,
        ap (λ h. h.message_type) fields,
        ap (λ h. h.sender) fields,
        ap (λ h. h.recipient) fields,
        ap (λ h. h.handler) fields,
        ap (λ h. h.session_id) fields,
      )
