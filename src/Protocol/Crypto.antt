-- ===== src/Protocol/Crypto.antt =====
-- implementations/rust/crates/protocol-core/src/crypto.rs: sealing and opening of envelopes.
pub mod Context
pub mod Opens
pub mod Frame
pub mod Placed
pub mod Sealed
pub mod RoundTrip
mod Tests
use Prim.Native.Char.{code}
use Prim.Native.String.{String}
use secure_pub_sub.Prelude.{
  ℕ, ◌+◌, Bool, not, List, [], ◌∷◌, ◌++◌, Option, none, some, leb, ltb, ◌==◌, ℕ-Eq, List-Eq, length,
  take, drop, slice, replicate, Bytes, Result, ok, err, ok_or, ensure, ◌>>=◌, ◌>>◌,
}
use secure_pub_sub.Protocol.Types.{
  AgentId, HandlerId, SessionId, MessageType, message_byte, message_eq, direction, Error, oversized,
  bad_signature, crypto_failure, wrong_recipient, wrong_message_type, version, header_len, tag_len,
  signature_len, set_environment, subscribe_permanent, subscribe, publish, publication_response,
}
use secure_pub_sub.Protocol.Codec.{EnvelopeRef, encode_header, parse_envelope}
use secure_pub_sub.Protocol.Primitives.{Primitives}

-- The bytes of an ASCII literal.
abbrev pub ascii : String → Bytes
ascii String.[] = []
ascii (String.◌∷◌ c s) = code c ∷ ascii s

abbrev pub protocol_id : Bytes
protocol_id = ascii "SecurePubSub/v1"

-- `MessageType::domain`
abbrev pub domain : MessageType → Bytes
domain set_environment = ascii "env"
domain subscribe_permanent = ascii "subscription"
domain subscribe = ascii "subscription-one-shot"
domain publish = ascii "publication-request"
domain publication_response = ascii "publication-response"

-- A fixed array that is filled from the front, and its cursor.
pub record Buffer : Type 0 where
  pub output : Bytes
  pub cursor : ℕ

-- `checked_add` of a cursor and a slice's length does not overflow a `usize`.
unfoldable pub append : Buffer → Bytes → Result Error Buffer
append b input = do
  let end = b.cursor + length input
  ensure (leb end (length b.output)) crypto_failure
  ok (record { output = take b.cursor b.output ++ (input ++ drop end b.output); cursor = end })

-- Consecutive calls of `append`, each followed by `?`.
unfoldable pub append_all : Buffer → List Bytes → Result Error Buffer
unfolding append
append_all b [] = ok b
append_all b (input ∷ rest) = do b' ← append b input; append_all b' rest

-- A zeroed array.
abbrev pub zeroed : ℕ → Buffer
zeroed n = record { output = replicate n 0; cursor = 0 }

-- `&buffer[..cursor]`
abbrev pub filled : Buffer → Bytes
filled b = take b.cursor b.output

abbrev pub key_label : Bytes
key_label = ascii "aead-key/chacha20poly1305"

abbrev pub nonce_label : Bytes
nonce_label = ascii "aead-nonce/one-message"

-- `[0u8; 32]`
abbrev pub zero_secret : Bytes
zero_secret = replicate 32 0

-- What the key derivation binds, in its order.
abbrev pub context_parts : MessageType → AgentId → AgentId → SessionId → Bytes → List Bytes
context_parts message_type sender recipient session_id ephemeral_public =
    protocol_id
    ∷ (version ∷ [])
    ∷ (direction message_type ∷ message_byte message_type ∷ [])
    ∷ domain message_type
    ∷ sender
    ∷ recipient
    ∷ ephemeral_public
    ∷ session_id
    ∷ []

module _ (p : Primitives) where
  -- `OneShotSecret::agree`, and the same test in `open_in_place`.
  unfoldable pub agree : Bytes → Bytes → Result Error Bytes
  agree secret peer = do
    let bytes = p.diffie_hellman secret peer
    ensure (not (bytes == zero_secret)) crypto_failure
    ok bytes

  unfoldable pub expand_label : (salt shared context label : Bytes) → ℕ → Result Error Bytes
  unfolding append_all
  expand_label salt shared context label n = do
    info ← append_all (zeroed 160) (context ∷ label ∷ [])
    ok_or (p.expand salt shared (filled info) n) crypto_failure

  unfoldable pub derive_key_nonce :
      (shared salt : Bytes)
      → MessageType
      → AgentId
      → AgentId
      → SessionId
      → Bytes
      → Result Error (Bytes × Bytes)
  unfolding append_all expand_label
  derive_key_nonce shared salt message_type sender recipient session_id ephemeral_public = do
    context ←
        append_all (zeroed 128)
          (context_parts message_type sender recipient session_id ephemeral_public)
    key ← expand_label salt shared (filled context) key_label 32
    nonce ← expand_label salt shared (filled context) nonce_label 12
    ok (key, nonce)

  -- The plaintext stands in the output behind the header. The secret is an ephemeral one. The result
  -- is the output after the call and the length of the envelope; the conversions of the key and the
  -- nonce to arrays do not fail, since these are slices of arrays of their lengths.
  unfoldable pub seal_in_place :
      Bytes
      → ℕ
      → MessageType
      → AgentId
      → AgentId
      → HandlerId
      → SessionId
      → (salt : Bytes) → (ephemeral_secret recipient_x25519 signing_key : Bytes)
      → Result Error (Bytes × ℕ)
  unfolding agree derive_key_nonce
  seal_in_place output plaintext_len message_type sender recipient handler session_id salt
        ephemeral_secret recipient_x25519 signing_key =
      do
        let ephemeral_public = p.x25519_public ephemeral_secret
        (output, total_len) ←
            encode_header output
              (record {
                message_type = message_type;
                sender = sender;
                recipient = recipient;
                handler = handler;
                session_id = session_id;
                ephemeral_public = ephemeral_public;
                salt = salt;
              })
              plaintext_len
        ensure (leb total_len (length output)) oversized
        shared ← agree ephemeral_secret recipient_x25519
        (key, nonce) ←
            derive_key_nonce shared salt message_type sender recipient session_id ephemeral_public
        let ciphertext_end = header_len + plaintext_len
        let header = take header_len output
        let tail = drop ciphertext_end output
        (ciphertext, tag) ←
            ok_or (p.encrypt key nonce header (slice output header_len ciphertext_end))
              crypto_failure
        let sealed = header ++ (ciphertext ++ (tag ++ drop tag_len tail))
        let signed_end = ciphertext_end + tag_len
        let signature = p.sign signing_key (take signed_end sealed)
        ok (
          take signed_end sealed ++ (signature ++ drop (signed_end + signature_len) sealed),
          total_len,
        )

  unfoldable pub verify_envelope_signature : EnvelopeRef → Bytes → Result Error (Unit {0})
  verify_envelope_signature envelope verifying_key =
      ensure (p.verify_strict verifying_key envelope.signed_bytes envelope.signature) bad_signature

  -- The plaintext, which the source leaves in the frame in place of the ciphertext.
  unfoldable pub open_in_place :
      Bytes
      → AgentId
      → MessageType
      → (sender_verifying_key recipient_x25519_secret : Bytes) → Result Error Bytes
  unfolding agree derive_key_nonce verify_envelope_signature
  open_in_place frame expected_recipient expected_type sender_verifying_key
        recipient_x25519_secret =
      do
        envelope ← parse_envelope frame
        ensure (envelope.recipient == expected_recipient) wrong_recipient
        ensure (message_eq envelope.message_type expected_type) wrong_message_type
        verify_envelope_signature envelope sender_verifying_key
        envelope ← parse_envelope frame
        shared ← agree recipient_x25519_secret envelope.ephemeral_public
        (key, nonce) ←
            derive_key_nonce shared envelope.salt envelope.message_type envelope.sender
              envelope.recipient envelope.session_id envelope.ephemeral_public
        ok_or (p.decrypt key nonce envelope.header envelope.ciphertext envelope.tag) crypto_failure
