-- ===== src/Protocol/Codec/RoundTrip.antt =====
-- `parse_envelope` reads what `encode_header` wrote.
use secure_pub_sub.Prelude.{
  ℕ, ◌+◌, ◌^◌, ◌≤◌, ◌≡◌, refl, sym, ap, subst, ◌∙◌, true, ◌&&◌, [], ◌∷◌, ◌++◌, append_assoc, arith,
  leb, ltb, nat_eq, nat_eq_iff, le→leb, leb→le, ◌==◌, ==_refl, some, length, length-append,
  take-append, length-take-le, length-drop, slice_of_drop, drop_of_drop, take, drop, slice, index,
  Bytes, be_bytes, be_value, length-be_bytes, be_value-be_bytes, ok, ensure-eq-ok, ok-injective,
  ℕ-Eq, List-Eq,
}
use secure_pub_sub.Protocol.Types.{
  MessageType, magic, message_from_u8, message_from_u8-message_byte, max_frame_len,
  max_plaintext_len,
}
use secure_pub_sub.Protocol.Codec.{
  Header, EnvelopeRef, header_then, encode_header, envelope, parse_envelope,
}

-- The arrays of the header have their lengths.
pub record IsHeader (h : Header) : Type 0 where
  pub sender : length h.sender ≡ 16
  pub recipient : length h.recipient ≡ 16
  pub handler : length h.handler ≡ 16
  pub session_id : length h.session_id ≡ 16
  pub ephemeral_public : length h.ephemeral_public ≡ 32
  pub salt : length h.salt ≡ 32

-- The envelope of a frame, with the fields of the header that was written into it.
abbrev pub envelope_of : Header → ℕ → Bytes → EnvelopeRef
envelope_of h n frame = record (envelope h.message_type n frame) {
  sender = h.sender;
  recipient = h.recipient;
  handler = h.handler;
  session_id = h.session_id;
  ephemeral_public = h.ephemeral_public;
  salt = h.salt;
}

parse_passes :
    (input : Bytes) (t : MessageType) (n : ℕ)
    → leb 228 (length input) ≡ true
    → leb (length input) max_frame_len ≡ true
    → (slice input 0 8 == magic) ≡ true
    → nat_eq (index input 8 0) 1 ≡ true
    → message_from_u8 (index input 9 0) ≡ some t
    → (slice input 10 12 == 0 ∷ 0 ∷ []) ≡ true
    → nat_eq (be_value (slice input 12 16)) (length input) ≡ true
    → be_value (slice input 144 148) ≡ n
    → leb n max_plaintext_len ≡ true
    → nat_eq (148 + n + 80) (be_value (slice input 12 16)) ≡ true
    → parse_envelope input ≡ ok (envelope t n input)
unfolding parse_envelope
parse_passes input t n a b c d m r g v k l = rw (a, b, c, d, m, r, g, v, k, l)

module _ (h : Header) (w : IsHeader h) (total n : ℕ) (body : Bytes) where
  abbrev frame : Bytes
  frame = header_then h total n body

  abbrev after_salt : Bytes
  after_salt = be_bytes 4 n ++ body

  abbrev after_key : Bytes
  after_key = h.salt ++ after_salt

  abbrev after_session : Bytes
  after_session = h.ephemeral_public ++ after_key

  abbrev after_handler : Bytes
  after_handler = h.session_id ++ after_session

  abbrev after_recipient : Bytes
  after_recipient = h.handler ++ after_handler

  abbrev after_sender : Bytes
  after_sender = h.recipient ++ after_recipient

  abbrev after_total : Bytes
  after_total = h.sender ++ after_sender

  drop_16 : drop 16 frame ≡ after_total
  drop_16 =
      drop_of_drop frame (be_bytes 4 total) after_total 12 16 refl
        (omega (arith, length-be_bytes 4 total))

  drop_32 : drop 32 frame ≡ after_sender
  drop_32 = drop_of_drop frame h.sender after_sender 16 32 drop_16 (omega (arith, w.sender))

  drop_48 : drop 48 frame ≡ after_recipient
  drop_48 =
      drop_of_drop frame h.recipient after_recipient 32 48 drop_32 (omega (arith, w.recipient))

  drop_64 : drop 64 frame ≡ after_handler
  drop_64 = drop_of_drop frame h.handler after_handler 48 64 drop_48 (omega (arith, w.handler))

  drop_80 : drop 80 frame ≡ after_session
  drop_80 =
      drop_of_drop frame h.session_id after_session 64 80 drop_64 (omega (arith, w.session_id))

  drop_112 : drop 112 frame ≡ after_key
  drop_112 =
      drop_of_drop frame h.ephemeral_public after_key 80 112 drop_80
        (omega (arith, w.ephemeral_public))

  drop_144 : drop 144 frame ≡ after_salt
  drop_144 = drop_of_drop frame h.salt after_salt 112 144 drop_112 (omega (arith, w.salt))

  pub drop_148 : drop 148 frame ≡ body
  drop_148 =
      drop_of_drop frame (be_bytes 4 n) body 144 148 drop_144 (omega (arith, length-be_bytes 4 n))

  total_slice : slice frame 12 16 ≡ be_bytes 4 total
  total_slice =
      slice_of_drop frame (be_bytes 4 total) after_total 12 16 refl
        (omega (arith, length-be_bytes 4 total))

  sender_slice : slice frame 16 32 ≡ h.sender
  sender_slice = slice_of_drop frame h.sender after_sender 16 32 drop_16 (omega (arith, w.sender))

  recipient_slice : slice frame 32 48 ≡ h.recipient
  recipient_slice =
      slice_of_drop frame h.recipient after_recipient 32 48 drop_32 (omega (arith, w.recipient))

  handler_slice : slice frame 48 64 ≡ h.handler
  handler_slice =
      slice_of_drop frame h.handler after_handler 48 64 drop_48 (omega (arith, w.handler))

  session_slice : slice frame 64 80 ≡ h.session_id
  session_slice =
      slice_of_drop frame h.session_id after_session 64 80 drop_64 (omega (arith, w.session_id))

  key_slice : slice frame 80 112 ≡ h.ephemeral_public
  key_slice =
      slice_of_drop frame h.ephemeral_public after_key 80 112 drop_80
        (omega (arith, w.ephemeral_public))

  salt_slice : slice frame 112 144 ≡ h.salt
  salt_slice = slice_of_drop frame h.salt after_salt 112 144 drop_112 (omega (arith, w.salt))

  length_slice : slice frame 144 148 ≡ be_bytes 4 n
  length_slice =
      slice_of_drop frame (be_bytes 4 n) body 144 148 drop_144 (omega (arith, length-be_bytes 4 n))

  pub length-frame : length frame ≡ 148 + length body
  length-frame = omega (
    arith,
    w,
    length-append (be_bytes 4 total) after_total,
    length-append h.sender after_sender,
    length-append h.recipient after_recipient,
    length-append h.handler after_handler,
    length-append h.session_id after_session,
    length-append h.ephemeral_public after_key,
    length-append h.salt after_salt,
    length-append (be_bytes 4 n) body,
    length-be_bytes 4 total,
    length-be_bytes 4 n,
  )

  envelope_fields : envelope h.message_type n frame ≡ envelope_of h n frame
  envelope_fields = λ i. record (envelope h.message_type n frame) {
    sender = sender_slice i;
    recipient = recipient_slice i;
    handler = handler_slice i;
    session_id = session_slice i;
    ephemeral_public = key_slice i;
    salt = salt_slice i;
  }

  pub parse-frame :
      n ≤ max_plaintext_len
      → total ≡ 148 + n + 80
      → length body ≡ n + 80
      → parse_envelope frame ≡ ok (envelope_of h n frame)
  parse-frame short sum fits =
      let total_value : be_value (slice frame 12 16) ≡ total =
        ap be_value total_slice ∙ be_value-be_bytes 4 total (omega arith) in
      let n_value : be_value (slice frame 144 148) ≡ n =
        ap be_value length_slice ∙ be_value-be_bytes 4 n (omega arith) in
      parse_passes frame h.message_type n (le→leb _ _ (omega (arith, length-frame)))
        (le→leb _ _ (omega (arith, length-frame))) (==_refl magic) refl
        (message_from_u8-message_byte h.message_type) (==_refl {A = Bytes} (0 ∷ 0 ∷ []))
        ((nat_eq_iff _ _).1 (omega (arith, length-frame, total_value))) n_value (le→leb _ _ short)
        ((nat_eq_iff _ _).1 (omega (arith, total_value)))
      ∙ ap (λ e. ok e) envelope_fields

pub header-append :
    (h : Header) (total n : ℕ) (rest : Bytes)
    → header_then h total n rest ≡ header_then h total n [] ++ rest
header-append h total n rest = simp append_assoc

pub take-header :
    (h : Header) (w : IsHeader h) (total n k : ℕ) (rest : Bytes)
    → take (148 + k) (header_then h total n rest) ≡ header_then h total n (take k rest)
take-header h w total n k rest =
    ap (take (148 + k)) (header-append h total n rest)
    ∙ take-append 148 k (header_then h total n []) rest (omega (arith, length-frame h w total n []))
    ∙ sym (header-append h total n (take k rest))

-- What `encode_header` writes into an output buffer, `parse_envelope` reads from the complete frame:
-- every field of the header, and the ciphertext, the tag and the signature at their places.
pub parse-encode_header :
    (output output' : Bytes) (h : Header) (n total : ℕ)
    → IsHeader h
    → encode_header output h n ≡ ok (output', total)
    → total ≤ length output
    → parse_envelope (take total output') ≡ ok (envelope_of h n (take total output'))
unfolding encode_header
parse-encode_header output output' h n total w e room =
    let (short, e0) = ensure-eq-ok (leb n max_plaintext_len) _ _ e in
    let (_, e1) =
      ensure-eq-ok (leb 148 (length output) && leb (148 + n + 80) max_frame_len) _ _ e0 in
    let (_, e2) = ensure-eq-ok (ltb (148 + n + 80) (2 ^ 32)) _ _ e1 in
    let (_, e3) = ensure-eq-ok (ltb n (2 ^ 32)) _ _ e2 in
    let pair : ((header_then h (148 + n + 80) n (drop 148 output), 148 + n + 80)
        ≡ (output', total)) =
      ok-injective e3 in
    subst (λ f. parse_envelope f ≡ ok (envelope_of h n f))
      (sym (take-header h w (148 + n + 80) n (n + 80) (drop 148 output))
        ∙ ap (λ k. take k (header_then h (148 + n + 80) n (drop 148 output))) {x = 148 + (n + 80)}
            {y = 148 + n + 80} (omega arith)
        ∙ ap (λ r. take r.1 r.0) pair)
      (parse-frame h w (148 + n + 80) n (take (n + 80) (drop 148 output)) (leb→le _ _ short) refl (
        length-take-le (n + 80) (drop 148 output)
          (omega (arith, room, ap (λ r. r.1) pair, length-drop 148 output))))
