-- ===== src/Protocol/Codec.antt =====
-- implementations/rust/crates/protocol-core/src/codec.rs: the envelope codec.
pub mod RoundTrip
pub mod Canonical
use secure_pub_sub.Prelude.{
  ℕ, ◌+◌, ◌^◌, Bool, ◌&&◌, List, [], ◌∷◌, ◌++◌, leb, ltb, nat_eq, ◌==◌, ℕ-Eq, List-Eq, length, take,
  drop, slice, index, Bytes, be_bytes, be_value, Result, ok, err, ok_or, ensure, ◌>>=◌, ◌>>◌,
}
use secure_pub_sub.Protocol.Types.{
  AgentId, HandlerId, SessionId, MessageType, message_byte, message_from_u8, Error, malformed,
  unsupported_version, oversized, magic, version, header_len, tag_len, signature_len,
  max_plaintext_len, max_frame_len,
}

-- The arguments of `encode_header` that go into the header as they are.
pub record Header : Type 0 where
  pub message_type : MessageType
  pub sender : AgentId
  pub recipient : AgentId
  pub handler : HandlerId
  pub session_id : SessionId
  pub ephemeral_public : Bytes
  pub salt : Bytes

pub record EnvelopeRef : Type 0 where
  pub message_type : MessageType
  pub sender : AgentId
  pub recipient : AgentId
  pub handler : HandlerId
  pub session_id : SessionId
  pub ephemeral_public : Bytes
  pub salt : Bytes
  pub ciphertext : Bytes
  pub tag : Bytes
  pub signature : Bytes
  pub header : Bytes
  pub signed_bytes : Bytes

-- What the copies of `encode_header` write into `output[0..148]`, and what stands behind it.
abbrev pub header_then : Header → ℕ → ℕ → Bytes → Bytes
header_then h total ciphertext_len rest =
    magic
    ++ (version
        ∷ message_byte h.message_type
        ∷ 0
        ∷ 0
        ∷ (be_bytes 4 total
            ++ (h.sender
                ++ (h.recipient
                    ++ (h.handler
                        ++ (h.session_id
                            ++ (h.ephemeral_public
                                ++ (h.salt ++ (be_bytes 4 ciphertext_len ++ rest)))))))))

-- The output after the call, and the length of the complete envelope. A `usize` has 64 bits, so the
-- checked sums do not overflow.
unfoldable pub encode_header : Bytes → Header → ℕ → Result Error (Bytes × ℕ)
encode_header output h ciphertext_len = do
  ensure (leb ciphertext_len max_plaintext_len) oversized
  let total_len = header_len + ciphertext_len + (tag_len + signature_len)
  ensure (leb header_len (length output) && leb total_len max_frame_len) oversized
  ensure (ltb total_len (2 ^ 32)) oversized
  ensure (ltb ciphertext_len (2 ^ 32)) oversized
  ok (header_then h total_len ciphertext_len (drop header_len output), total_len)

-- The envelope whose header fields are at hand, over the bytes of a complete frame.
abbrev pub envelope : MessageType → ℕ → Bytes → EnvelopeRef
envelope message_type ciphertext_len input = record {
  message_type = message_type;
  sender = slice input 16 32;
  recipient = slice input 32 48;
  handler = slice input 48 64;
  session_id = slice input 64 80;
  ephemeral_public = slice input 80 112;
  salt = slice input 112 144;
  ciphertext = slice input header_len (header_len + ciphertext_len);
  tag = slice input (header_len + ciphertext_len) (header_len + ciphertext_len + tag_len);
  signature = slice input (header_len + ciphertext_len + tag_len) (length input);
  header = take header_len input;
  signed_bytes = take (header_len + ciphertext_len + tag_len) input;
}

-- The conversions of slices to arrays do not fail: each slice has the length of its array.
unfoldable pub parse_envelope : Bytes → Result Error EnvelopeRef
parse_envelope input = do
  ensure (leb (header_len + tag_len + signature_len) (length input)) malformed
  ensure (leb (length input) max_frame_len) oversized
  ensure (slice input 0 8 == magic) malformed
  ensure (nat_eq (index input 8 0) version) unsupported_version
  message_type ← ok_or (message_from_u8 (index input 9 0)) malformed
  ensure (slice input 10 12 == 0 ∷ 0 ∷ []) malformed
  let total_len = be_value (slice input 12 16)
  ensure (nat_eq total_len (length input)) malformed
  let ciphertext_len = be_value (slice input 144 148)
  ensure (leb ciphertext_len max_plaintext_len) oversized
  ensure (nat_eq (header_len + ciphertext_len + (tag_len + signature_len)) total_len) malformed
  ok (envelope message_type ciphertext_len input)
