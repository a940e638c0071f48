-- ===== src/Protocol/Crypto/Context.antt =====
-- The key derivation of implementations/rust/crates/protocol-core/src/crypto.rs without its buffers.
use mathlib.Core.List.{flatten, reverse, reverse-append}
use secure_pub_sub.Prelude.{
  ℕ, ◌+◌, ◌≤◌, ◌≡◌, ◌≢◌, refl, sym, ap, ◌∙◌, List, [], ◌∷◌, ◌++◌, append_assoc, append-nil, arith,
  leb, le→leb, length, length-append, append-injective, index, length-drop, length-replicate,
  length-take-le, take, take-append, take-length_append, drop, Bytes, ok, ok_or, ◌>>=◌, true,
}
use secure_pub_sub.Protocol.Types.{AgentId, SessionId, MessageType, message_byte, crypto_failure}
use secure_pub_sub.Protocol.Primitives.{Primitives, IsSound}
use secure_pub_sub.Protocol.Crypto.{
  Buffer, append, append_all, zeroed, filled, key_label, nonce_label, context_parts, expand_label,
  derive_key_nonce, domain,
}

-- A buffer of a size with these bytes in front of its cursor.
record Holds (b : Buffer) (size : ℕ) (bytes : Bytes) : Type 0 where
  front : filled b ≡ bytes
  place : b.cursor ≡ length bytes
  room : length b.output ≡ size

append-Holds :
    (b : Buffer) (size : ℕ) (bytes input : Bytes)
    → Holds b size bytes
    → length bytes + length input ≤ size
    → (b' : Buffer) × (append b input ≡ ok b') × Holds b' size (bytes ++ input)
unfolding append
append-Holds b size bytes input h fits =
    let test : leb (b.cursor + length input) (length b.output) ≡ true =
      le→leb _ _ (omega (arith, h.place, h.room)) in
    (
      record {
        output = take b.cursor b.output ++ (input ++ drop (b.cursor + length input) b.output);
        cursor = b.cursor + length input;
      },
      rw test,
      record {
        front =
            ap
              (λ f.
                take (b.cursor + length input)
                  (f ++ (input ++ drop (b.cursor + length input) b.output)))
              h.front
            ∙ take-append b.cursor (length input) bytes _ (sym h.place)
            ∙ ap (λ f. bytes ++ f) (take-length_append (length input) input _ refl);
        place = omega (arith, h.place, length-append bytes input);
        room = omega (
          arith,
          h.place,
          h.room,
          length-append (take b.cursor b.output) (input ++ drop (b.cursor + length input) b.output),
          length-append input (drop (b.cursor + length input) b.output),
          length-take-le b.cursor b.output (omega (arith, h.place, h.room)),
          length-drop (b.cursor + length input) b.output,
        );
      },
    )

append_all-Holds :
    (b : Buffer) (size : ℕ) (bytes : Bytes) (parts : List Bytes)
    → Holds b size bytes
    → length bytes + length (flatten parts) ≤ size
    → (b' : Buffer) × (append_all b parts ≡ ok b') × Holds b' size (bytes ++ flatten parts)
unfolding append_all flatten
append_all-Holds b size bytes [] h fits = (b, refl, rw append-nil h)
append_all-Holds b size bytes (part ∷ parts) h fits =
    let (b1, e1, h1) =
      append-Holds b size bytes part h (omega (arith, length-append part (flatten parts))) in
    let (b2, e2, h2) =
      append_all-Holds b1 size (bytes ++ part) parts h1
        (omega (arith, length-append part (flatten parts), length-append bytes part)) in
    (b2, rw e1 e2, rw (← append_assoc bytes part (flatten parts)) h2)

zeroed-Holds : (n : ℕ) → Holds (zeroed n) n []
zeroed-Holds n = record { front = refl; place = refl; room = length-replicate n 0 }

-- The bytes of the derivation context.
unfoldable pub context_bytes : MessageType → AgentId → AgentId → SessionId → Bytes → Bytes
context_bytes message_type sender recipient session_id ephemeral_public =
    flatten (context_parts message_type sender recipient session_id ephemeral_public)

length-domain : (t : MessageType) → length (domain t) ≤ 21
length-domain t = ground arith

-- The widths of the arrays that go into the derivation.
pub record AreFixed (sender recipient session_id ephemeral_public : Bytes) : Type 0 where
  pub sender_width : length sender ≡ 16
  pub recipient_width : length recipient ≡ 16
  pub session_width : length session_id ≡ 16
  pub key_width : length ephemeral_public ≡ 32

module _ (message_type : MessageType) (sender recipient session_id ephemeral_public : Bytes)
    (w : AreFixed sender recipient session_id ephemeral_public) where
  abbrev context : Bytes
  context = context_bytes message_type sender recipient session_id ephemeral_public

  length-context : length context ≡ 98 + length (domain message_type)
  unfolding context_bytes flatten
  length-context = omega (
    arith,
    w,
    length-append (domain message_type)
        (sender ++ (recipient ++ (ephemeral_public ++ (session_id ++ [])))),
    length-append sender (recipient ++ (ephemeral_public ++ (session_id ++ []))),
    length-append recipient (ephemeral_public ++ (session_id ++ [])),
    length-append ephemeral_public (session_id ++ []),
    length-append session_id [],
  )

  module _ (p : Primitives) (shared salt : Bytes) where
    label-eq :
        (label : Bytes) (n : ℕ)
        → length label ≤ 25
        → expand_label p salt shared context label n
          ≡ ok_or (p.expand salt shared (context ++ label) n) crypto_failure
    unfolding expand_label flatten
    label-eq label n short =
        let (b, e, h) =
          append_all-Holds (zeroed 160) 160 [] (context ∷ label ∷ []) (zeroed-Holds 160) (
            omega (
              arith,
              length-context,
              length-domain message_type,
              length-append context (label ++ []),
              length-append label [],
            )) in
        rw (e, h.front, append-nil label) refl

    -- For identifiers and keys of their fixed widths, the key and the nonce are what HKDF expands for
    -- the whole context followed by each label: the buffers of 128 and 160 bytes never overflow, and
    -- the only failure is one of the expansion.
    pub derive-eq :
        derive_key_nonce p shared salt message_type sender recipient session_id ephemeral_public
        ≡ (do
          key ← ok_or (p.expand salt shared (context ++ key_label) 32) crypto_failure
          nonce ← ok_or (p.expand salt shared (context ++ nonce_label) 12) crypto_failure
          ok (key, nonce))
    unfolding derive_key_nonce context_bytes
    derive-eq =
        let (b, e, h) =
          append_all-Holds (zeroed 128) 128 []
            (context_parts message_type sender recipient session_id ephemeral_public)
            (zeroed-Holds 128) fits in
        rw (e, h.front, label-eq key_label 32 (omega arith), label-eq nonce_label 12 (omega arith))
          refl
      where
        fits :
            length {A = ℕ} []
              + length (
                  flatten (context_parts message_type sender recipient session_id ephemeral_public))
            ≤ 128
        fits = omega (arith, length-context, length-domain message_type)

pub derive-ok :
    (message_type : MessageType) (sender recipient session_id ephemeral_public : Bytes)
    → AreFixed sender recipient session_id ephemeral_public
    → (p : Primitives) → IsSound p
    → (shared salt : Bytes)
    → (key : Bytes) × (nonce : Bytes) × (derive_key_nonce p shared salt message_type sender
          recipient session_id ephemeral_public
        ≡ ok (key, nonce))
      × (length key ≡ 32)
      × (length nonce ≡ 12)
derive-ok message_type sender recipient session_id ephemeral_public w p sound shared salt =
    let context = context_bytes message_type sender recipient session_id ephemeral_public in
    let (key, e, n) = sound.expands salt shared (context ++ key_label) 32 (omega arith) in
    let (nonce, f, m) = sound.expands salt shared (context ++ nonce_label) 12 (omega arith) in
    (
      key,
      nonce,
      derive-eq message_type sender recipient session_id ephemeral_public w p shared salt
          ∙ rw (e, f) refl,
      n,
      m,
    )

message_byte-injective : (t t' : MessageType) → message_byte t ≡ message_byte t' → t ≡ t'
message_byte-injective t t' h = ground arith

context_bytes-tail :
    (t : MessageType) (s r i e s' r' i' e' : Bytes)
    → AreFixed s r i e
    → AreFixed s' r' i' e'
    → context_bytes t s r i e ≡ context_bytes t s' r' i' e'
    → (s ≡ s') × (r ≡ r') × (e ≡ e') × (i ≡ i')
unfolding context_bytes flatten
context_bytes-tail t s r i e s' r' i' e' w w' h =
    let rest : domain t ++ (s ++ (r ++ (e ++ (i ++ []))))
        ≡ domain t ++ (s' ++ (r' ++ (e' ++ (i' ++ [])))) =
      ap (drop 18) h in
    let (_, h0) = append-injective (domain t) (domain t) _ _ refl rest in
    let (hs, h1) = append-injective s s' _ _ (omega (arith, w, w')) h0 in
    let (hr, h2) = append-injective r r' _ _ (omega (arith, w, w')) h1 in
    let (he, h3) = append-injective e e' _ _ (omega (arith, w, w')) h2 in
    let (hi, _) = append-injective i i' _ _ (omega (arith, w, w')) h3 in (hs, hr, he, hi)

-- For identifiers and keys of their fixed widths, two derivations have the same context only if the
-- message types, the senders, the recipients, the ephemeral keys and the sessions are the same.
pub context_bytes-injective :
    (t t' : MessageType) (s r i e s' r' i' e' : Bytes)
    → AreFixed s r i e
    → AreFixed s' r' i' e'
    → context_bytes t s r i e ≡ context_bytes t' s' r' i' e'
    → (t ≡ t') × (s ≡ s') × (r ≡ r') × (e ≡ e') × (i ≡ i')
unfolding context_bytes flatten
context_bytes-injective t t' s r i e s' r' i' e' w w' h =
    let same : t ≡ t' = message_byte-injective t t' (ap (λ c. index c 17 0) h) in
    let (hs, hr, he, hi) =
      context_bytes-tail t s r i e s' r' i' e' w w'
        (h ∙ ap (λ k. context_bytes k s' r' i' e') (sym same)) in
    (same, hs, hr, he, hi)

-- No key is derived from the bytes that a nonce is derived from.
pub labels-separate : (context context' : Bytes) → context ++ key_label ≢ context' ++ nonce_label
labels-separate context context' h =
    let ends : reverse key_label ++ reverse context ≡ reverse nonce_label ++ reverse context' =
      sym (reverse-append context key_label) ∙ ap reverse h ∙ reverse-append context' nonce_label in
    absurd (omega (arith, ap (λ c. index c 0 0) ends))
