-- ===== src/Protocol/Crypto/Frame.antt =====
-- The frames that `seal_in_place` of implementations/rust/crates/protocol-core/src/crypto.rs makes, and
-- the envelopes that these are.
use secure_pub_sub.Prelude.{
  ℕ, ◌+◌, ◌≤◌, ◌≡◌, refl, sym, ap, ◌∙◌, [], ◌++◌, append-nil, arith, length, length-append, take,
  take-append, take-length_append, slice_of_drop, drop_of_drop, drop, slice, Bytes, ok, ℕ-Eq,
  List-Eq,
}
use secure_pub_sub.Protocol.Types.{max_plaintext_len}
use secure_pub_sub.Protocol.Codec.{Header, EnvelopeRef, header_then, parse_envelope}
use secure_pub_sub.Protocol.Codec.RoundTrip.{
  IsHeader, envelope_of, parse-frame, length-frame, drop_148, take-header,
}

-- The frame of a header, a ciphertext, a tag and a signature.
module _ (h : Header) (w : IsHeader h) (n : ℕ) (c tag sig : Bytes) (short : n ≤ max_plaintext_len)
    (c_width : length c ≡ n) (tag_width : length tag ≡ 16) (sig_width : length sig ≡ 64) where
  abbrev pub framed : Bytes → Bytes
  framed body = header_then h (148 + n + 80) n body

  abbrev pub whole : Bytes
  whole = framed (c ++ (tag ++ sig))

  -- The envelope that the frame is.
  abbrev pub sent : EnvelopeRef
  sent = record {
    message_type = h.message_type;
    sender = h.sender;
    recipient = h.recipient;
    handler = h.handler;
    session_id = h.session_id;
    ephemeral_public = h.ephemeral_public;
    salt = h.salt;
    ciphertext = c;
    tag = tag;
    signature = sig;
    header = framed [];
    signed_bytes = framed (c ++ tag);
  }

  drop-header : drop 148 whole ≡ c ++ (tag ++ sig)
  drop-header = drop_148 h w (148 + n + 80) n (c ++ (tag ++ sig))

  drop-cipher : drop (148 + n) whole ≡ tag ++ sig
  drop-cipher = drop_of_drop whole c (tag ++ sig) 148 (148 + n) drop-header (omega (arith, c_width))

  drop-tag : drop (148 + n + 16) whole ≡ sig
  drop-tag =
      drop_of_drop whole tag sig (148 + n) (148 + n + 16) drop-cipher (omega (arith, tag_width))

  pub length-whole : length whole ≡ 148 + n + 80
  length-whole = omega (
    arith,
    length-frame h w (148 + n + 80) n (c ++ (tag ++ sig)),
    length-append c (tag ++ sig),
    length-append tag sig,
    c_width,
    tag_width,
    sig_width,
  )

  cipher_slice : slice whole 148 (148 + n) ≡ c
  cipher_slice =
      slice_of_drop whole c (tag ++ sig) 148 (148 + n) drop-header (omega (arith, c_width))

  tag_slice : slice whole (148 + n) (148 + n + 16) ≡ tag
  tag_slice =
      slice_of_drop whole tag sig (148 + n) (148 + n + 16) drop-cipher (omega (arith, tag_width))

  signature_slice : slice whole (148 + n + 16) (length whole) ≡ sig
  signature_slice =
      slice_of_drop whole sig [] (148 + n + 16) (length whole) (drop-tag ∙ sym (append-nil sig))
        (omega (arith, length-whole, sig_width))

  pub take-framed : (k : ℕ) (body : Bytes) → take (148 + k) (framed body) ≡ framed (take k body)
  take-framed k body = take-header h w (148 + n + 80) n k body

  pub take-signed :
      (rest : Bytes) → take (148 + n + 16) (framed (c ++ (tag ++ rest))) ≡ framed (c ++ tag)
  take-signed rest =
      ap (λ k. take k (framed (c ++ (tag ++ rest)))) {x = 148 + n + 16} {y = 148 + (n + 16)}
        (omega arith)
      ∙ take-framed (n + 16) (c ++ (tag ++ rest))
      ∙ ap framed (
          take-append n 16 c (tag ++ rest) c_width
          ∙ ap (λ r. c ++ r) (take-length_append 16 tag rest tag_width))

  pub take-total :
      (rest : Bytes) → take (148 + n + 80) (framed (c ++ (tag ++ (sig ++ rest)))) ≡ whole
  take-total rest =
      ap (λ k. take k (framed (c ++ (tag ++ (sig ++ rest))))) {x = 148 + n + 80}
        {y = 148 + (n + (16 + 64))} (omega arith)
      ∙ take-framed (n + (16 + 64)) (c ++ (tag ++ (sig ++ rest)))
      ∙ ap framed (
          take-append n (16 + 64) c (tag ++ (sig ++ rest)) c_width
          ∙ ap (λ r. c ++ r)
              (take-append 16 64 tag (sig ++ rest) tag_width
                ∙ ap (λ r. tag ++ r) (take-length_append 64 sig rest sig_width)))

  sent-fields : envelope_of h n whole ≡ sent
  sent-fields = λ i. record sent {
    ciphertext = cipher_slice i;
    tag = tag_slice i;
    signature = signature_slice i;
    header = take-framed 0 (c ++ (tag ++ sig)) i;
    signed_bytes = take-signed sig i;
  }

  pub parse-whole : parse_envelope whole ≡ ok sent
  parse-whole =
      parse-frame h w (148 + n + 80) n (c ++ (tag ++ sig)) short refl (
        omega (
          arith,
          length-append c (tag ++ sig),
          length-append tag sig,
          c_width,
          tag_width,
          sig_width,
        ))
      ∙ ap (λ e. ok e) sent-fields
