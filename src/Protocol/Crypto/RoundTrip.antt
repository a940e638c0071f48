-- ===== src/Protocol/Crypto/RoundTrip.antt =====
-- `open_in_place` of implementations/rust/crates/protocol-core/src/crypto.rs undoes `seal_in_place`.
use secure_pub_sub.Prelude.{
  ℕ, ◌+◌, ◌≤◌, ◌≡◌, ◌≢◌, refl, ap, ◌∙◌, inl, inr, Bool-cases, [], ◌++◌, arith, ◌==◌, ==_iff, length,
  take, length-take-le, length-drop, drop, Bytes, ok, ℕ-Eq, List-Eq,
}
use secure_pub_sub.Protocol.Types.{AgentId, HandlerId, SessionId, MessageType, max_plaintext_len}
use secure_pub_sub.Protocol.Codec.{EnvelopeRef, header_then, parse_envelope}
use secure_pub_sub.Protocol.Codec.Canonical.{header_of}
use secure_pub_sub.Protocol.Codec.RoundTrip.{IsHeader}
use secure_pub_sub.Protocol.Primitives.{Primitives, IsSound}
use secure_pub_sub.Protocol.Crypto.{seal_in_place, open_in_place, agree, zero_secret}
use secure_pub_sub.Protocol.Crypto.Context.{derive-ok}
use secure_pub_sub.Protocol.Crypto.Sealed.{header, seal-framed, envelope-framed, open-framed}

agree-nonzero :
    (p : Primitives) (secret peer : Bytes)
    → p.diffie_hellman secret peer ≢ zero_secret
    → agree p secret peer ≡ ok (p.diffie_hellman secret peer)
unfolding agree
agree-nonzero p secret peer h = elim (Bool-cases (p.diffie_hellman secret peer == zero_secret)) [
  | inl zero ↦ absurd (h ((==_iff (p.diffie_hellman secret peer) zero_secret).0 zero))
  | inr other ↦ rw other refl
]

-- With sound primitives, fields of their fixed widths, a plaintext of at most 4096 bytes, an output
-- with room for the envelope, and an agreement that is not zero: `seal_in_place` succeeds with the
-- length of the envelope, what it wrote parses as an envelope with the given header fields, and the
-- recipient opens it, with the sender's verifying key, to the plaintext that stood behind the header.
pub open-seal_in_place :
    (p : Primitives)
    → IsSound p
    → (output : Bytes) (n : ℕ) (type : MessageType) (sender recipient : AgentId)
      (handler : HandlerId) (session_id : SessionId) (salt ephemeral secret signing : Bytes)
    → IsHeader (
        header p output n type sender recipient handler session_id salt ephemeral
          (p.x25519_public secret)
          signing)
    → n ≤ max_plaintext_len
    → 148 + n + 80 ≤ length output
    → p.diffie_hellman ephemeral (p.x25519_public secret) ≢ zero_secret
    → (output' : Bytes) × (seal_in_place p output n type sender recipient handler session_id salt
          ephemeral
          (p.x25519_public secret)
          signing
        ≡ ok (output', 148 + n + 80))
      × (open_in_place p
            (take (148 + n + 80) output')
            recipient
            type
            (p.verifying_key signing)
            secret
          ≡ ok (take n (drop 148 output)))
      × (e : EnvelopeRef) × (parse_envelope (take (148 + n + 80) output') ≡ ok e)
      × (header_of e
          ≡ header p output n type sender recipient handler session_id salt ephemeral
              (p.x25519_public secret)
              signing)
open-seal_in_place p sound output n type sender recipient handler session_id salt ephemeral secret
      signing w short room nonzero =
    let peer : Bytes = p.x25519_public secret in
    let shared : Bytes = p.diffie_hellman ephemeral peer in
    let (key, nonce, derived, _, _) =
      derive-ok type sender recipient session_id (p.x25519_public ephemeral)
        (record {
          sender_width = w.sender;
          recipient_width = w.recipient;
          session_width = w.session_id;
          key_width = w.ephemeral_public;
        })
        p sound shared salt in
    let front : Bytes =
      header_then
        (header p output n type sender recipient handler session_id salt ephemeral peer signing)
        (148 + n + 80) n [] in
    let plaintext = take n (drop 148 output) in
    let size : length plaintext ≡ n =
      length-take-le n (drop 148 output) (omega (arith, length-drop 148 output)) in
    let (c, tag, encrypted, c_width, tag_width, decrypted) =
      sound.encrypts key nonce front plaintext (omega (arith, size)) in
    let agreed : agree p ephemeral peer ≡ ok shared = agree-nonzero p ephemeral peer nonzero in
    let agreed' : agree p secret (p.x25519_public ephemeral) ≡ ok shared =
      agree-nonzero p secret (p.x25519_public ephemeral)
        (λ zero. nonzero (sound.agreement ephemeral secret ∙ zero))
      ∙ ap ok (sound.agreement secret ephemeral) in
    let sig_width = sound.length-sign signing (
      header_then
        (header p output n type sender recipient handler session_id salt ephemeral peer signing)
        (148 + n + 80) n (c ++ tag)) in
    let signed = sound.verify-sign signing (
      header_then
        (header p output n type sender recipient handler session_id salt ephemeral peer signing)
        (148 + n + 80) n (c ++ tag)) in
    let (e, parsed, fields) =
      envelope-framed p output n type sender recipient handler session_id salt ephemeral peer
        signing w short room shared key nonce c tag agreed derived encrypted (c_width ∙ size)
        tag_width sig_width in
    (
      _,
      seal-framed p output n type sender recipient handler session_id salt ephemeral peer signing w
          short room shared key nonce c tag agreed derived encrypted (c_width ∙ size) tag_width
          sig_width,
      open-framed p output n type sender recipient handler session_id salt ephemeral peer signing w
          short room shared key nonce c tag agreed derived encrypted (c_width ∙ size) tag_width
          sig_width (p.verifying_key signing) secret plaintext signed agreed' decrypted,
      e,
      parsed,
      fields,
    )
