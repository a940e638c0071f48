-- ===== src/Protocol/Crypto/Sealed.antt =====
-- What `seal_in_place` of implementations/rust/crates/protocol-core/src/crypto.rs writes, and what
-- its receiver sees of it.
use secure_pub_sub.Prelude.{
  ℕ, ◌+◌, ◌-◌, ◌^◌, ◌≤◌, ◌≡◌, refl, sym, ap, ◌∙◌, true, some, [], ◌++◌, append_assoc, arith, le→leb,
  lt→ltb, ==_refl, length, take, length-drop, drop, slice, Bytes, Result, ok, ℕ-Eq, List-Eq,
}
use secure_pub_sub.Protocol.Types.{
  AgentId, HandlerId, SessionId, MessageType, Error, max_plaintext_len, max_frame_len, message_eq,
}
use secure_pub_sub.Protocol.Codec.{Header, EnvelopeRef, header_then, encode_header, parse_envelope}
use secure_pub_sub.Protocol.Codec.Canonical.{header_of}
use secure_pub_sub.Protocol.Codec.RoundTrip.{
  IsHeader, length-frame, drop_148, take-header, header-append,
}
use secure_pub_sub.Protocol.Primitives.{Primitives}
use secure_pub_sub.Protocol.Crypto.{seal_in_place, open_in_place, agree, derive_key_nonce}
use secure_pub_sub.Protocol.Crypto.Opens.{open-parsed}
use secure_pub_sub.Protocol.Crypto.Frame.{sent, take-signed, take-total, parse-whole}

encode-fits :
    (output : Bytes) (h : Header) (n : ℕ)
    → n ≤ max_plaintext_len
    → 148 ≤ length output
    → encode_header output h n ≡ ok (header_then h (148 + n + 80) n (drop 148 output), 148 + n + 80)
unfolding encode_header
encode-fits output h n short room =
    rw
      (
        le→leb n max_plaintext_len short,
        le→leb 148 (length output) room,
        le→leb (148 + n + 80) max_frame_len (omega arith),
        lt→ltb (148 + n + 80) (2 ^ 32) (omega arith),
        lt→ltb n (2 ^ 32) (omega arith),
      )
      refl

message_eq_refl : (t : MessageType) → message_eq t t ≡ true
message_eq_refl t = ground arith

-- The arguments of `seal_in_place`.
module _ (p : Primitives) (output : Bytes) (n : ℕ) (type : MessageType) (sender recipient : AgentId)
    (handler : HandlerId) (session_id : SessionId) (salt ephemeral peer signing : Bytes) where
  abbrev pub header : Header
  header = record {
    message_type = type;
    sender = sender;
    recipient = recipient;
    handler = handler;
    session_id = session_id;
    ephemeral_public = p.x25519_public ephemeral;
    salt = salt;
  }

  module _ (w : IsHeader header) (short : n ≤ max_plaintext_len)
      (room : 148 + n + 80 ≤ length output) where
    abbrev frame : Bytes → Bytes
    frame body = header_then header (148 + n + 80) n body

    abbrev first : Bytes
    first = frame (drop 148 output)

    room-first : 148 + n + 80 ≤ length first
    room-first = omega (
      arith,
      length-frame header w (148 + n + 80) n (drop 148 output),
      length-drop 148 output,
      room,
    )

    plaintext-first : slice first 148 (148 + n) ≡ take n (drop 148 output)
    plaintext-first =
        ap (λ r. take (148 + n - 148) r) (drop_148 header w (148 + n + 80) n (drop 148 output))
        ∙ ap (λ k. take k (drop 148 output)) (omega arith)

    header-first : take 148 first ≡ frame []
    header-first = take-header header w (148 + n + 80) n 0 (drop 148 output)

    module _ (shared key nonce c tag : Bytes) (agreed : agree p ephemeral peer ≡ ok shared)
        (derived : derive_key_nonce p shared salt type sender recipient session_id
            (p.x25519_public ephemeral)
          ≡ ok (key, nonce))
        (encrypted : p.encrypt key nonce (frame []) (take n (drop 148 output)) ≡ some (c, tag))
        (c_width : length c ≡ n) (tag_width : length tag ≡ 16)
        (sig_width : length (p.sign signing (frame (c ++ tag))) ≡ 64) where
      abbrev rest : Bytes
      rest = drop 16 (drop (148 + n) first)

      abbrev sealed : Bytes → Bytes
      sealed front = front ++ (c ++ (tag ++ rest))

      abbrev finished : Bytes → Result Error (Bytes × ℕ)
      finished bytes = ok (
        take (148 + n + 16) bytes
            ++ (p.sign signing (take (148 + n + 16) bytes) ++ drop (148 + n + 16 + 64) bytes),
        148 + n + 80,
      )

      seal-finished :
          seal_in_place p output n type sender recipient handler session_id salt ephemeral peer
            signing
          ≡ finished (frame (c ++ (tag ++ rest)))
      unfolding seal_in_place
      seal-finished =
          rw
            (
              encode-fits output header n short (omega arith),
              le→leb (148 + n + 80) (length first) room-first,
              agreed,
              derived,
              header-first,
              plaintext-first,
              encrypted,
            )
            (ap (λ front. finished (sealed front)) header-first
              ∙ ap finished (sym (header-append header (148 + n + 80) n (c ++ (tag ++ rest)))))

      abbrev signature : Bytes
      signature = p.sign signing (frame (c ++ tag))

      abbrev behind : Bytes
      behind = drop (148 + n + 16 + 64) (frame (c ++ (tag ++ rest)))

      pub seal-framed :
          seal_in_place p output n type sender recipient handler session_id salt ephemeral peer
            signing
          ≡ ok (frame (c ++ (tag ++ (signature ++ behind))), 148 + n + 80)
      seal-framed =
          seal-finished
          ∙ ap (λ signed. ok (signed ++ (p.sign signing signed ++ behind), 148 + n + 80))
              (take-signed header w n c tag signature short c_width tag_width sig_width rest)
          ∙ ap (λ f. ok (f, 148 + n + 80)) (simp append_assoc)

      sealed_envelope : EnvelopeRef
      sealed_envelope = sent header w n c tag signature short c_width tag_width sig_width

      -- The receiver's side: the envelope of the frame, and what its checks and its decryption see.
      parse-sealed :
          parse_envelope (take (148 + n + 80) (frame (c ++ (tag ++ (signature ++ behind)))))
          ≡ ok sealed_envelope
      unfolding sealed_envelope
      parse-sealed =
          ap parse_envelope
            (take-total header w n c tag signature short c_width tag_width sig_width behind)
          ∙ parse-whole header w n c tag signature short c_width tag_width sig_width

      pub envelope-framed :
          (e : EnvelopeRef) × (parse_envelope
              (take (148 + n + 80) (frame (c ++ (tag ++ (signature ++ behind)))))
            ≡ ok e)
          × (header_of e ≡ header)
      unfolding sealed_envelope
      envelope-framed = (sealed_envelope, parse-sealed, refl)

      pub open-framed :
          (verifying secret plaintext : Bytes)
          → p.verify_strict verifying (frame (c ++ tag)) signature ≡ true
          → agree p secret (p.x25519_public ephemeral) ≡ ok shared
          → p.decrypt key nonce (frame []) c tag ≡ some plaintext
          → open_in_place p
              (take (148 + n + 80) (frame (c ++ (tag ++ (signature ++ behind)))))
              recipient
              type
              verifying
              secret
            ≡ ok plaintext
      unfolding sealed_envelope
      open-framed verifying secret plaintext signed agreed' decrypted =
          open-parsed p _ recipient type verifying secret sealed_envelope parse-sealed
          ∙ rw (==_refl recipient, message_eq_refl type, signed, agreed', derived, decrypted) refl
