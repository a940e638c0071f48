-- ===== src/Ca/Process/Delivered.antt =====
-- The delivery that `CertificateAuthority` of implementations/rust/crates/ca-core/src/lib.rs makes, at
-- its recipient.
use secure_pub_sub.Prelude.{
  ℕ, ◌+◌, ◌≤◌, ◌≡◌, ◌≢◌, refl, ap, ◌∙◌, ◌++◌, arith, le→leb, length, length-append, length-drop,
  length-replicate, length-be_bytes, take, drop, Bytes, be_bytes, ok,
}
use secure_pub_sub.Protocol.Types.{
  AgentId, HandlerId, TypeId, ca_id, max_frame_len, publication_response,
}
use secure_pub_sub.Protocol.Operation.{parse_operation}
use secure_pub_sub.Protocol.Operation as Operation
use secure_pub_sub.Protocol.Operation.Wire.{response, IsOperation, operation_bytes, view}
use secure_pub_sub.Protocol.Operation.RoundTrip.{parse-operation_bytes}
use secure_pub_sub.Protocol.Encode.{encode_response}
use secure_pub_sub.Protocol.Encode.RoundTrip.{encode-operation_bytes}
use secure_pub_sub.Protocol.Codec.{EnvelopeRef, parse_envelope}
use secure_pub_sub.Protocol.Codec.RoundTrip.{IsHeader}
use secure_pub_sub.Protocol.Primitives.{Primitives, IsSound, CryptoRandom, Fills}
use secure_pub_sub.Protocol.Crypto.{open_in_place, zero_secret}
use secure_pub_sub.Protocol.Crypto.Placed.{placed, length-placed, plaintext-placed}
use secure_pub_sub.Protocol.Crypto.RoundTrip.{open-seal_in_place}
use secure_pub_sub.Protocol.Crypto.Sealed.{header}
use secure_pub_sub.Ca.Guard.{EnvironmentPolicy}
use secure_pub_sub.Ca.Handler.{World, pure, lift, drawn, ◌>>=◌}
use secure_pub_sub.Ca.Process.{CaKeys, zeroed_frame, delivery}

length-zeroed_frame : length zeroed_frame ≡ max_frame_len
unfolding zeroed_frame
length-zeroed_frame = length-replicate {A = ℕ} max_frame_len 0

module _ (p : Primitives) (sound : IsSound p) (r : CryptoRandom) (fills : Fills r)
    (policy : EnvironmentPolicy) (ca : CaKeys) (publisher recipient : AgentId) (handler : HandlerId)
    (type_id : TypeId) (value secret : Bytes)
    (sendable : IsOperation (response type_id publisher value))
    (recipient_width : length recipient ≡ 16) (handler_width : length handler ≡ 16)
    (strong : (ephemeral : Bytes)
      → p.diffie_hellman ephemeral (p.x25519_public secret) ≢ zero_secret) where
  abbrev message : Bytes
  message = operation_bytes (response type_id publisher value)

  length-message : length message ≤ 3095
  unfolding operation_bytes
  length-message = omega (
    arith,
    sendable,
    length-append (be_bytes 4 type_id) (publisher ++ (be_bytes 2 (length value) ++ value)),
    length-be_bytes 4 type_id,
    length-append publisher (be_bytes 2 (length value) ++ value),
    length-append (be_bytes 2 (length value)) value,
    length-be_bytes 2 (length value),
  )

  abbrev room : Bytes
  room = drop 148 zeroed_frame

  encoded :
      encode_response room type_id publisher value
      ≡ ok (message ++ drop (length message) room, length message)
  encoded =
      encode-operation_bytes (response type_id publisher value) room sendable
      ∙ rw
          (le→leb (length message) (length room)
            (omega (arith, length-message, length-drop 148 zeroed_frame, length-zeroed_frame)))
          refl

  wide : 148 ≤ length zeroed_frame
  wide = omega (arith, length-zeroed_frame)

  abbrev output : Bytes
  output = placed zeroed_frame message (drop (length message) room) wide

  length-output : length output ≡ max_frame_len
  length-output = omega (
    arith,
    length-message,
    length-zeroed_frame,
    length-placed zeroed_frame message (drop (length message) room) wide,
    length-drop (length message) room,
    length-drop 148 zeroed_frame,
  )

  module _ (w : World r) where
    abbrev session : Bytes
    session = (r.fill_bytes 16 w.rng).1

    abbrev salted : r.State × Bytes
    salted = r.fill_bytes 32 (r.fill_bytes 16 w.rng).0

    abbrev ephemeral : r.State × Bytes
    ephemeral = r.ephemeral_secret salted.0

    widths : IsHeader (
        header p output
          (length message)
          publication_response
          ca_id
          recipient
          handler
          session
          salted.1
          ephemeral.1
          (p.x25519_public secret)
          ca.signing)
    widths = record {
      sender = refl;
      recipient = recipient_width;
      handler = handler_width;
      session_id = fills 16 w.rng;
      ephemeral_public = sound.length-x25519_public ephemeral.1;
      salt = fills 32 (r.fill_bytes 16 w.rng).0;
    }

    -- With sound primitives, a response within the bounds of the protocol, and a recipient with whom no
    -- agreement is zero: a delivery is made, and its recipient opens it, with the authority's
    -- verifying key, to the encoding of the type, the publisher and the value; it is an envelope of a
    -- response from the authority to the recipient, for the handler of the
    -- subscription, with the session that is drawn first.
    pub delivery-opens :
        (frame : Bytes) × (w' : World r) × (delivery p r policy ca publisher recipient handler
            type_id value
            (p.x25519_public secret)
            w
          ≡ (w', ok frame))
        × (open_in_place p frame recipient publication_response (p.verifying_key ca.signing) secret
            ≡ ok message)
        × (parse_operation message ≡ ok (Operation.publication_response type_id publisher value))
        × (e : EnvelopeRef) × (parse_envelope frame ≡ ok e)
        × (e.message_type ≡ publication_response)
        × (e.sender ≡ ca_id)
        × (e.recipient ≡ recipient)
        × (e.handler ≡ handler)
        × (e.session_id ≡ session)
    unfolding delivery lift drawn pure ◌>>=◌ view
    delivery-opens =
        let (output', sealed, opened, e, parsed, fields) =
          open-seal_in_place p sound output (length message) publication_response ca_id recipient
            handler session salted.1 ephemeral.1 secret ca.signing widths
            (omega (arith, length-message)) (omega (arith, length-message, length-output))
            (strong ephemeral.1) in
        (
          take (148 + length message + 80) output',
          record w { rng = ephemeral.0 },
          rw (encoded, sealed) refl,
          opened
              ∙ ap (λ m. ok m)
                  (plaintext-placed zeroed_frame message (drop (length message) room) wide),
          parse-operation_bytes (response type_id publisher value) sendable,
          e,
          parsed,
          ap (λ h. h.message_type) fields,
          ap (λ h. h.sender) fields,
          ap (λ h. h.recipient) fields,
          ap (λ h. h.handler) fields,
          ap (λ h. h.session_id) fields,
        )
