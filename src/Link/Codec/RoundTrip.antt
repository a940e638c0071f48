-- ===== src/Link/Codec/RoundTrip.antt =====
-- `encode` and `decode` are inverse to one another.
use secure_pub_sub.Prelude.{
  ℕ, ◌+◌, ◌≤◌, ◌≡◌, refl, subst, Bool, true, ◌&&◌, not, [], ◌∷◌, ◌++◌, arith, leb, length,
  length-append, length-slice, length-drop, All-take, All-drop, slice-append-drop, slice-index,
  slice_of_drop, drop_of_drop, drop, slice, index, Bytes, AreBytes, IsByte, >>=-eq-ok, ensure-eq-ok,
  ok-injective, nat_eq, nat_eq_iff, leb→le, &&-eq-true, ◌==◌, List-Eq, be_bytes, be_value,
  length-be_bytes, be_value-be_bytes, be_bytes-be_value, ok, list_eq, list_eq_iff, ℕ-Eq,
}
use secure_pub_sub.Protocol.Types.{max_frame_len}
use secure_pub_sub.Link.Codec.{
  FrameKind, LinkFrame, MessageId, wire, encode, decode, kind_byte, parse_kind, is_bodiless,
  is_empty, link_magic, link_version, max_link_frame_len,
}

parse_kind-kind_byte : (k : FrameKind) → parse_kind (kind_byte k) ≡ ok k
parse_kind-kind_byte k = ground arith

kind_byte-parse_kind : (b : ℕ) (k : FrameKind) → parse_kind b ≡ ok k → b ≡ kind_byte k
kind_byte-parse_kind b k h = ground arith

pub length-wire :
    (kind : FrameKind) (id : MessageId) (payload : Bytes)
    → length id ≡ 16
    → length (wire kind id payload) ≡ 28 + length payload
length-wire kind id payload h = omega (
  arith,
  length-append id (be_bytes 4 (length payload) ++ payload),
  length-append (be_bytes 4 (length payload)) payload,
  length-be_bytes 4 (length payload),
)

module _ (kind : FrameKind) (id : MessageId) (payload : Bytes) (wide : length id ≡ 16) where
  tail_of_id : drop 24 (wire kind id payload) ≡ be_bytes 4 (length payload) ++ payload
  tail_of_id =
      drop_of_drop (wire kind id payload) id (be_bytes 4 (length payload) ++ payload) 8 24 refl
        (omega arith)

  slice-id : slice (wire kind id payload) 8 24 ≡ id
  slice-id =
      slice_of_drop (wire kind id payload) id (be_bytes 4 (length payload) ++ payload) 8 24 refl
        (omega arith)

  slice-length : slice (wire kind id payload) 24 28 ≡ be_bytes 4 (length payload)
  slice-length =
      slice_of_drop (wire kind id payload) (be_bytes 4 (length payload)) payload 24 28 tail_of_id
        (omega (arith, length-be_bytes 4 (length payload)))

  drop-payload : drop 28 (wire kind id payload) ≡ payload
  drop-payload =
      drop_of_drop (wire kind id payload) (be_bytes 4 (length payload)) payload 24 28 tail_of_id
        (omega (arith, length-be_bytes 4 (length payload)))

  decode-wire :
      leb (length payload) max_frame_len ≡ true
      → not (is_bodiless kind && not (is_empty payload)) ≡ true
      → decode (wire kind id payload) ≡ ok (record { kind = kind; id = id; payload = payload })
  unfolding decode list_eq
  decode-wire short body = ground (
    arith,
    length-wire kind id payload wide,
    slice-id,
    slice-length,
    drop-payload,
    be_value-be_bytes 4 (length payload),
    parse_kind-kind_byte kind,
  )

-- Whatever `encode` accepts under a 16-byte identifier, `decode` reads back as the same kind,
-- identifier and payload.
pub decode-encode :
    (kind : FrameKind) (id : MessageId) (payload wired : Bytes)
    → length id ≡ 16
    → encode kind id payload ≡ ok wired
    → decode wired ≡ ok (record { kind = kind; id = id; payload = payload })
unfolding encode
decode-encode kind id payload wired wide h = ground (arith, decode-wire kind id payload wide)

abbrev marks_ok : Bytes → Bool
marks_ok input = slice input 0 4 == link_magic && nat_eq (index input 4 0) link_version

abbrev header_ok : Bytes → Bool
header_ok input =
    slice input 0 4 == link_magic
    && nat_eq (index input 4 0) link_version
    && slice input 6 8 == 0 ∷ 0 ∷ []

abbrev lengths_ok : Bytes → Bool
lengths_ok input =
    let n = be_value (slice input 24 28) in nat_eq (28 + n) (length input) && leb n max_frame_len

abbrev body_ok : FrameKind → Bytes → Bool
body_ok k payload = not (is_bodiless k && not (is_empty payload))

-- What a decoded frame says of the bytes that it came from.
record Decoded (input : Bytes) (f : LinkFrame) : Type 0 where
  long : 28 ≤ length input
  marked : slice input 0 4 ≡ link_magic
  versioned : index input 4 0 ≡ link_version
  kind_of : parse_kind (index input 5 0) ≡ ok f.kind
  reserved : slice input 6 8 ≡ 0 ∷ 0 ∷ []
  id_of : f.id ≡ slice input 8 24
  measured : 28 + be_value (slice input 24 28) ≡ length input
  short : be_value (slice input 24 28) ≤ max_frame_len
  payload_of : f.payload ≡ drop 28 input
  body : not (is_bodiless f.kind && not (is_empty f.payload)) ≡ true

Decoded-of :
    (input : Bytes) (k : FrameKind)
    → leb 28 (length input) ≡ true
    → header_ok input ≡ true
    → parse_kind (index input 5 0) ≡ ok k
    → lengths_ok input ≡ true
    → body_ok k (drop 28 input) ≡ true
    → Decoded input (record { kind = k; id = slice input 8 24; payload = drop 28 input })
Decoded-of input k e0 e1 e2 e3 e4 =
    let n : ℕ = be_value (slice input 24 28) in
    let (m0, m1) = &&-eq-true (marks_ok input) (slice input 6 8 == 0 ∷ 0 ∷ []) e1 in
    let (m2, m3) = &&-eq-true (slice input 0 4 == link_magic) (nat_eq (index input 4 0) 1) m0 in
    let (l0, l1) = &&-eq-true (nat_eq (28 + n) (length input)) (leb n max_frame_len) e3 in
    record {
      long = leb→le 28 (length input) e0;
      marked = (list_eq_iff (slice input 0 4) link_magic).0 m2;
      versioned = (nat_eq_iff (index input 4 0) 1).0 m3;
      kind_of = e2;
      reserved = (list_eq_iff (slice input 6 8) (0 ∷ 0 ∷ [])).0 m1;
      id_of = refl;
      measured = (nat_eq_iff (28 + n) (length input)).0 l0;
      short = leb→le n max_frame_len l1;
      payload_of = refl;
      body = e4;
    }

decode-Decoded : (input : Bytes) (f : LinkFrame) → decode input ≡ ok f → Decoded input f
unfolding decode
decode-Decoded input f h =
    let (e0, h0) = ensure-eq-ok (leb 28 (length input)) _ _ h in
    let (_, h1) = ensure-eq-ok (leb (length input) max_link_frame_len) _ _ h0 in
    let (e1, h2) = ensure-eq-ok (header_ok input) _ _ h1 in
    let (k, e2, h3) = >>=-eq-ok (parse_kind (index input 5 0)) _ h2 in
    let (e3, h4) = ensure-eq-ok (lengths_ok input) _ _ h3 in
    let (e4, h5) = ensure-eq-ok (body_ok k (drop 28 input)) _ _ h4 in
    subst (Decoded input) (ok-injective h5) (Decoded-of input k e0 e1 e2 e3 e4)

reassemble :
    (input : Bytes)
    → 28 ≤ length input
    → slice input 0 4
        ++ (index input 4 0
            ∷ index input 5 0
            ∷ (slice input 6 8 ++ (slice input 8 24 ++ (slice input 24 28 ++ drop 28 input))))
      ≡ input
reassemble input h = cc (
  slice-append-drop input 0 4 (omega arith),
  slice-append-drop input 4 5 (omega arith),
  slice-append-drop input 5 6 (omega arith),
  slice-append-drop input 6 8 (omega arith),
  slice-append-drop input 8 24 (omega arith),
  slice-append-drop input 24 28 (omega arith),
  slice-index input 4 0 (omega arith),
  slice-index input 5 0 (omega arith),
)

-- `decode` accepts nothing but what `encode` makes: the bytes it accepts are the encoding of the
-- frame it returns, whose identifier has 16 bytes.
pub encode-decode :
    (input : Bytes) (f : LinkFrame)
    → AreBytes input
    → decode input ≡ ok f
    → (encode f.kind f.id f.payload ≡ ok input) × (length f.id ≡ 16)
unfolding encode
encode-decode input f bytes h =
    let d : Decoded input f = decode-Decoded input f h in
    ground (
      arith,
      d,
      reassemble input d.long,
      kind_byte-parse_kind (index input 5 0) f.kind d.kind_of,
      length-slice input 8 24 (omega arith) (omega (arith, d.long)),
      length-drop 28 input,
      be_bytes-be_value 4 (slice input 24 28)
          (All-take IsByte 4 (drop 24 input) (All-drop IsByte 24 input bytes))
          (length-slice input 24 28 (omega arith) (omega (arith, d.long))),
    )
