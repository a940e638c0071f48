-- ===== src/Protocol/Crypto/Opens.antt =====
-- What `open_in_place` of implementations/rust/crates/protocol-core/src/crypto.rs accepts.
use secure_pub_sub.Prelude.{
  ◌≡◌, refl, sym, ap, ◌∙◌, true, not, some, ◌≢◌, arith, ◌==◌, ==_iff, Bytes, Result, ok, ok_or,
  ensure, ensure-eq-ok, ok_or-eq-ok, >>=-eq-ok, ◌>>=◌, ◌>>◌, ℕ-Eq, List-Eq,
}
use secure_pub_sub.Protocol.Types.{
  AgentId, MessageType, message_eq, wrong_recipient, wrong_message_type, bad_signature,
  crypto_failure, Error,
}
use secure_pub_sub.Protocol.Codec.{EnvelopeRef, parse_envelope}
use secure_pub_sub.Protocol.Primitives.{Primitives}
use secure_pub_sub.Protocol.Crypto.{
  open_in_place, agree, derive_key_nonce, verify_envelope_signature, zero_secret,
}

-- The part of `open_in_place` behind its checks.
abbrev pub unseal : Primitives → Bytes → EnvelopeRef → Result Error Bytes
unseal p secret e = do
  shared ← agree p secret e.ephemeral_public
  (key, nonce) ←
      derive_key_nonce p shared e.salt e.message_type e.sender e.recipient e.session_id
        e.ephemeral_public
  ok_or (p.decrypt key nonce e.header e.ciphertext e.tag) crypto_failure

message_eq→eq : (a b : MessageType) → message_eq a b ≡ true → a ≡ b
message_eq→eq a b h = ground arith

module _ (p : Primitives) (frame : Bytes) (recipient : AgentId) (type : MessageType)
    (key secret : Bytes) where
  pub open-parsed :
      (e : EnvelopeRef)
      → parse_envelope frame ≡ ok e
      → open_in_place p frame recipient type key secret ≡ (
          ensure (e.recipient == recipient) wrong_recipient
          >> (ensure (message_eq e.message_type type) wrong_message_type
              >> (ensure (p.verify_strict key e.signed_bytes e.signature) bad_signature
                  >> unseal p secret e)))
  unfolding open_in_place verify_envelope_signature
  open-parsed e parsed = rw parsed refl

  open-eq-ok :
      {plaintext : Bytes}
      → open_in_place p frame recipient type key secret ≡ ok plaintext
      → (e : EnvelopeRef) × (parse_envelope frame ≡ ok e)
        × (unseal p secret e ≡ ok plaintext)
        × (e.recipient ≡ recipient)
        × (e.message_type ≡ type)
        × (p.verify_strict key e.signed_bytes e.signature ≡ true)
  unfolding open_in_place
  open-eq-ok h =
      let (e, parsed, _) = >>=-eq-ok (parse_envelope frame) _ h in
      let (addressed, h1) =
        ensure-eq-ok (e.recipient == recipient) _ _ (sym (open-parsed e parsed) ∙ h) in
      let (typed, h2) = ensure-eq-ok (message_eq e.message_type type) _ _ h1 in
      let (signed, h3) = ensure-eq-ok (p.verify_strict key e.signed_bytes e.signature) _ _ h2 in
      (
        e,
        parsed,
        h3,
        (==_iff e.recipient recipient).0 addressed,
        message_eq→eq e.message_type type typed,
        signed,
      )

-- An envelope that is for a recipient, of a type, and signed under a key, and whose ciphertext
-- decrypts to a plaintext under the key that the agreement derives.
pub record Authentic (p : Primitives) (recipient : AgentId) (type : MessageType)
    (key secret : Bytes) (e : EnvelopeRef) (plaintext : Bytes) : Type 0 where
  pub addressed : e.recipient ≡ recipient
  pub typed : e.message_type ≡ type
  pub signed : p.verify_strict key e.signed_bytes e.signature ≡ true
  pub shared : Bytes
  pub agreed : agree p secret e.ephemeral_public ≡ ok shared
  pub nonzero : p.diffie_hellman secret e.ephemeral_public ≢ zero_secret
  pub cipher_key : Bytes
  pub nonce : Bytes
  pub derived :
      derive_key_nonce p shared e.salt e.message_type e.sender e.recipient e.session_id
        e.ephemeral_public
      ≡ ok (cipher_key, nonce)
  pub decrypted : p.decrypt cipher_key nonce e.header e.ciphertext e.tag ≡ some plaintext

agree-nonzero :
    (p : Primitives) (secret peer : Bytes) {shared : Bytes}
    → agree p secret peer ≡ ok shared
    → p.diffie_hellman secret peer ≢ zero_secret
unfolding agree
agree-nonzero p secret peer h e =
    let (t, _) =
      ensure-eq-ok (not (p.diffie_hellman secret peer == zero_secret)) crypto_failure _ h in
    let u = (==_iff (p.diffie_hellman secret peer) zero_secret).1 e in cc (ap not u)

module _ (p : Primitives) (frame : Bytes) (recipient : AgentId) (type : MessageType)
    (key secret : Bytes) where
  -- When a frame opens, it is an envelope for the expected recipient and of the expected type, its
  -- signature verifies over its signed bytes, the agreed secret is not zero, and the plaintext is what
  -- the ciphertext decrypts to under the key and the nonce that are derived from its header.
  pub open-Authentic :
      {plaintext : Bytes}
      → open_in_place p frame recipient type key secret ≡ ok plaintext
      → (e : EnvelopeRef) × (parse_envelope frame ≡ ok e)
        × Authentic p recipient type key secret e plaintext
  open-Authentic h =
      let (e, parsed, h0, addressed, typed, signed) =
        open-eq-ok p frame recipient type key secret h in
      let (shared, agreed, h1) = >>=-eq-ok (agree p secret e.ephemeral_public) _ h0 in
      let ((cipher_key, nonce), derived, h2) =
        >>=-eq-ok
          (derive_key_nonce p shared e.salt e.message_type e.sender e.recipient e.session_id
            e.ephemeral_public)
          _ h1 in
      (
        e,
        parsed,
        record {
          addressed = addressed;
          typed = typed;
          signed = signed;
          shared = shared;
          agreed = agreed;
          nonzero = agree-nonzero p secret e.ephemeral_public agreed;
          cipher_key = cipher_key;
          nonce = nonce;
          derived = derived;
          decrypted = ok_or-eq-ok _ _ h2;
        },
      )
