-- ===== src/Protocol/Codec/Canonical.antt =====
-- An accepted envelope is the canonical encoding of what was parsed from it.
use secure_pub_sub.Prelude.{
  ℕ, ◌+◌, ◌-◌, ◌^◌, ◌≤◌, ◌≡◌, refl, sym, ap, subst, ◌∙◌, [], ◌∷◌, ◌++◌, some, arith, leb, nat_eq,
  nat_eq_iff, leb→le, le→leb, lt→ltb, ◌==◌, length, length-drop, length-slice, slice-append-drop,
  slice-index, take-append-drop, take_of_length-le, All-drop, All-take, take, drop, slice, index,
  Bytes, AreBytes, IsByte, be_bytes, be_value, be_bytes-be_value, list_eq_iff, ok, ok_or,
  ensure-eq-ok, >>=-eq-ok, ok-injective, ok_or-eq-ok, ℕ-Eq, List-Eq,
}
use secure_pub_sub.Protocol.Types.{
  MessageType, malformed, magic, message_from_u8, message_byte-message_from_u8, max_frame_len,
  max_plaintext_len,
}
use secure_pub_sub.Protocol.Codec.{
  Header, EnvelopeRef, header_then, encode_header, envelope, parse_envelope,
}
use secure_pub_sub.Protocol.Codec.RoundTrip.{IsHeader}

-- The header fields of an envelope.
abbrev pub header_of : EnvelopeRef → Header
header_of e = record {
  message_type = e.message_type;
  sender = e.sender;
  recipient = e.recipient;
  handler = e.handler;
  session_id = e.session_id;
  ephemeral_public = e.ephemeral_public;
  salt = e.salt;
}

-- What an accepted input has passed.
pub record Accepted (input : Bytes) (t : MessageType) (n : ℕ) : Type 0 where
  pub fits : length input ≤ max_frame_len
  pub marked : slice input 0 8 ≡ magic
  pub versioned : index input 8 0 ≡ 1
  pub typed : message_from_u8 (index input 9 0) ≡ some t
  pub reserved : slice input 10 12 ≡ 0 ∷ 0 ∷ []
  pub total : be_value (slice input 12 16) ≡ length input
  pub cipher : be_value (slice input 144 148) ≡ n
  pub short : n ≤ max_plaintext_len
  pub sum : 148 + n + 80 ≡ length input

pub parse-Accepted :
    (input : Bytes) (e : EnvelopeRef)
    → parse_envelope input ≡ ok e
    → (t : MessageType) × (n : ℕ) × Accepted input t n × (e ≡ envelope t n input)
unfolding parse_envelope
parse-Accepted input e h =
    let n : ℕ = be_value (slice input 144 148) in
    let total : ℕ = be_value (slice input 12 16) in
    let (long, h0) = ensure-eq-ok (leb 228 (length input)) _ _ h in
    let (fits, h1) = ensure-eq-ok (leb (length input) max_frame_len) _ _ h0 in
    let (marked, h2) = ensure-eq-ok (slice input 0 8 == magic) _ _ h1 in
    let (versioned, h3) = ensure-eq-ok (nat_eq (index input 8 0) 1) _ _ h2 in
    let (t, typed, h4) = >>=-eq-ok (ok_or (message_from_u8 (index input 9 0)) malformed) _ h3 in
    let (reserved, h5) = ensure-eq-ok (slice input 10 12 == 0 ∷ 0 ∷ []) _ _ h4 in
    let (same, h6) = ensure-eq-ok (nat_eq total (length input)) _ _ h5 in
    let (short, h7) = ensure-eq-ok (leb n max_plaintext_len) _ _ h6 in
    let (sum, h8) = ensure-eq-ok (nat_eq (148 + n + 80) total) _ _ h7 in
    (
      t,
      n,
      record {
        fits = leb→le _ _ fits;
        marked = (list_eq_iff (slice input 0 8) magic).0 marked;
        versioned = (nat_eq_iff _ _).0 versioned;
        typed = ok_or-eq-ok (message_from_u8 (index input 9 0)) malformed typed;
        reserved = (list_eq_iff (slice input 10 12) (0 ∷ 0 ∷ [])).0 reserved;
        total = (nat_eq_iff _ _).0 same;
        cipher = refl;
        short = leb→le _ _ short;
        sum = (nat_eq_iff (148 + n + 80) total).0 sum ∙ (nat_eq_iff _ _).0 same;
      },
      sym (ok-injective h8),
    )

slice_to_end : (input : Bytes) (i : ℕ) → slice input i (length input) ≡ drop i input
slice_to_end input i =
    take_of_length-le (length input - i) (drop i input) (omega (arith, length-drop i input))

-- The input is the header that its own fields make, over its own remainder.
module _ (input : Bytes) (t : MessageType) (n : ℕ) (bytes : AreBytes input)
    (a : Accepted input t n) where
  word_at :
      (i j : ℕ)
      → i ≤ j
      → j ≤ length input
      → j - i ≡ 4
      → be_bytes 4 (be_value (slice input i j)) ≡ slice input i j
  word_at i j h k e =
      be_bytes-be_value 4 (slice input i j)
        (All-take IsByte (j - i) (drop i input) (All-drop IsByte i input bytes))
        (length-slice input i j h k ∙ e)

  long : 228 ≤ length input
  long = omega (arith, a.sum)

  header-input :
      header_then (header_of (envelope t n input)) (148 + n + 80) n (drop 148 input) ≡ input
  header-input = cc (
    slice-append-drop input 0 8 (omega arith),
    slice-append-drop input 8 9 (omega arith),
    slice-append-drop input 9 10 (omega arith),
    slice-append-drop input 10 12 (omega arith),
    slice-append-drop input 12 16 (omega arith),
    slice-append-drop input 16 32 (omega arith),
    slice-append-drop input 32 48 (omega arith),
    slice-append-drop input 48 64 (omega arith),
    slice-append-drop input 64 80 (omega arith),
    slice-append-drop input 80 112 (omega arith),
    slice-append-drop input 112 144 (omega arith),
    slice-append-drop input 144 148 (omega arith),
    slice-index input 8 0 (omega (arith, long)),
    slice-index input 9 0 (omega (arith, long)),
    a.marked,
    a.versioned,
    message_byte-message_from_u8 (index input 9 0) t a.typed,
    a.reserved,
    ap (be_bytes 4) (a.total ∙ sym a.sum),
    ap (be_bytes 4) a.cipher,
    word_at 12 16 (omega arith) (omega (arith, long)) refl,
    word_at 144 148 (omega arith) (omega (arith, long)) refl,
  )

  length-ciphertext : length (slice input 148 (148 + n)) ≡ n
  length-ciphertext =
      length-slice input 148 (148 + n) (omega arith) (omega (arith, a.sum)) ∙ omega arith

  widths : IsHeader (header_of (envelope t n input))
  widths = record {
    sender = length-slice input 16 32 (omega arith) (omega (arith, long));
    recipient = length-slice input 32 48 (omega arith) (omega (arith, long));
    handler = length-slice input 48 64 (omega arith) (omega (arith, long));
    session_id = length-slice input 64 80 (omega arith) (omega (arith, long));
    ephemeral_public = length-slice input 80 112 (omega arith) (omega (arith, long));
    salt = length-slice input 112 144 (omega arith) (omega (arith, long));
  }

  -- The parts of the frame, in their order.
  parts :
      take 148 input
        ++ (slice input 148 (148 + n)
            ++ (slice input (148 + n) (148 + n + 16) ++ slice input (148 + n + 16) (length input)))
      ≡ input
  parts = cc (
    take-append-drop 148 input,
    slice-append-drop input 148 (148 + n) (omega arith),
    slice-append-drop input (148 + n) (148 + n + 16) (omega arith),
    slice_to_end input (148 + n + 16),
  )

  signed : take (148 + n + 16) input ++ slice input (148 + n + 16) (length input) ≡ input
  signed = cc (take-append-drop (148 + n + 16) input, slice_to_end input (148 + n + 16))

  encode-envelope :
      encode_header input (header_of (envelope t n input)) n ≡ ok (input, length input)
  unfolding encode_header
  encode-envelope =
      rw
        (
          le→leb n max_plaintext_len a.short,
          le→leb 148 (length input) (omega (arith, long)),
          le→leb (148 + n + 80) max_frame_len (omega (arith, a.short)),
          lt→ltb (148 + n + 80) (2 ^ 32) (omega (arith, a.short)),
          lt→ltb n (2 ^ 32) (omega (arith, a.short)),
          header-input,
        )
        (ap (λ k. ok (input, k)) a.sum)

-- What `parse_envelope` says of an accepted input: its header has the fixed widths, encoding it again
-- over the input changes nothing, and the parts of the envelope make up the input.
pub record IsCanonical (input : Bytes) (e : EnvelopeRef) : Type 0 where
  pub widths : IsHeader (header_of e)
  pub encoded : encode_header input (header_of e) (length e.ciphertext) ≡ ok (input, length input)
  pub parts : e.header ++ (e.ciphertext ++ (e.tag ++ e.signature)) ≡ input
  pub signed : e.signed_bytes ++ e.signature ≡ input
  pub sizes : (length e.tag ≡ 16) × (length e.signature ≡ 64)

-- `parse_envelope` accepts nothing but canonical envelopes: of the bytes that it accepts, the header
-- is what `encode_header` writes for the parsed fields, and header, ciphertext, tag and signature
-- are all of the input.
pub parse-IsCanonical :
    (input : Bytes) (e : EnvelopeRef)
    → AreBytes input
    → parse_envelope input ≡ ok e
    → IsCanonical input e
parse-IsCanonical input e bytes h =
    let (t, n, a, same) = parse-Accepted input e h in
    subst (IsCanonical input) (sym same) (record {
      widths = widths input t n bytes a;
      encoded =
          ap (encode_header input (header_of (envelope t n input)))
            (length-ciphertext input t n bytes a)
          ∙ encode-envelope input t n bytes a;
      parts = parts input t n bytes a;
      signed = signed input t n bytes a;
      sizes = (
        length-slice input (148 + n) (148 + n + 16) (omega arith) (omega (arith, a.sum))
            ∙ omega arith,
        length-slice input (148 + n + 16) (length input) (omega (arith, a.sum)) (omega arith)
            ∙ omega (arith, a.sum),
      );
    })
