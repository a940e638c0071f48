-- ===== src/Link/Auth.antt =====
-- `authentication_mac` and `verify_authentication` of
-- implementations/rust/crates/infrastructure-link/src/lib.rs, over an abstract SHA-256.
use Prim.Native.Nat.{bit_xor}
use secure_pub_sub.Prelude.{
  ℕ, zero, suc, ◌≡◌, ◌↔◌, ◌&&◌, [], ◌∷◌, ◌++◌, arith, map, replicate, ◌-◌, ◌≤◌, refl, ap, ap₂, sym,
  ◌∙◌, subst, nat_eq, length, Bytes, Result, ok, err, if◌then◌else◌, ◌==◌, ==_iff, ==_refl, ℕ-Eq,
  List-Eq,
}
use secure_pub_sub.Link.Codec.{LinkError, authentication}

-- The key padded to a block of 64 bytes and mixed with the constant byte.
pad_key : ℕ → ℕ → Bytes → Bytes
pad_key zero byte secret = []
pad_key (suc n) byte [] = byte ∷ pad_key n byte []
pad_key (suc n) byte (k ∷ secret) = bit_xor byte k ∷ pad_key n byte secret

-- b"SecurePubSub/Broker-CA/v1"
abbrev pub label : Bytes
label =
    b'S' ∷ b'e' ∷ b'c' ∷ b'u' ∷ b'r' ∷ b'e' ∷ b'P' ∷ b'u' ∷ b'b' ∷ b'S' ∷ b'u' ∷ b'b' ∷ b'/' ∷ b'B'
    ∷ b'r' ∷ b'o' ∷ b'k' ∷ b'e' ∷ b'r' ∷ b'-' ∷ b'C' ∷ b'A' ∷ b'/' ∷ b'v' ∷ b'1' ∷ []

-- `sha256` is the digest of the `sha2` crate.
module _ (sha256 : Bytes → Bytes) where
  unfoldable pub authentication_mac : Bytes → Bytes → Bytes
  unfolding pad_key
  authentication_mac secret challenge =
      let inner = sha256 (pad_key 64 0x36 secret ++ (label ++ challenge)) in
      sha256 (pad_key 64 0x5c secret ++ inner)

  -- The comparison in constant time is an equality of bytes.
  unfoldable pub verify_authentication : Bytes → Bytes → Bytes → Result LinkError (Unit {0})
  verify_authentication secret challenge response =
      let expected = authentication_mac secret challenge in
      if nat_eq (length response) (length expected) && expected == response
      then ok tt
      else err authentication

-- HMAC of RFC 2104 over a digest with blocks of 64 bytes, for a key of one block at most: the key is
-- filled up with zeros, and every byte of it mixed with 0x36 and with 0x5c.
abbrev pub block_key : Bytes → Bytes
block_key key = key ++ replicate (64 - length key) 0

abbrev pub hmac : (digest : Bytes → Bytes) → Bytes → Bytes → Bytes
hmac digest key message = digest (
    map (λ k. bit_xor 0x5c k) (block_key key)
    ++ digest (map (λ k. bit_xor 0x36 k) (block_key key) ++ message))

pad_key-nil :
    (n byte : ℕ)
    → bit_xor byte 0 ≡ byte
    → pad_key n byte [] ≡ map (λ k. bit_xor byte k) (replicate n 0)
unfolding pad_key
pad_key-nil zero byte zeros = refl
pad_key-nil (suc n) byte zeros = ap₂ (λ k rest. k ∷ rest) (sym zeros) (pad_key-nil n byte zeros)

pad_key-map :
    (n byte : ℕ) (secret : Bytes)
    → bit_xor byte 0 ≡ byte
    → length secret ≤ n
    → pad_key n byte secret ≡ map (λ k. bit_xor byte k) (secret ++ replicate (n - length secret) 0)
unfolding pad_key
pad_key-map zero byte [] zeros short = refl
pad_key-map zero byte (k ∷ secret) zeros short = absurd (omega arith)
pad_key-map (suc n) byte [] zeros short =
    pad_key-nil (suc n) byte zeros
    ∙ ap (λ w. map (λ k. bit_xor byte k) (replicate w 0)) {x = suc n} {y = suc n - 0} (omega arith)
pad_key-map (suc n) byte (k ∷ secret) zeros short = ap (◌∷◌ (bit_xor byte k)) (
    pad_key-map n byte secret zeros (omega arith)
    ∙ ap (λ w. map (λ j. bit_xor byte j) (secret ++ replicate w 0)) {x = n - length secret}
        {y = suc n - suc (length secret)} (omega arith))

module _ (sha256 : Bytes → Bytes) where
  authentication_mac-hmac :
      (secret challenge : Bytes)
      → length secret ≤ 64
      → authentication_mac sha256 secret challenge ≡ hmac sha256 secret (label ++ challenge)
  unfolding authentication_mac
  authentication_mac-hmac secret challenge short =
      rw (pad_key-map 64 0x36 secret refl short, pad_key-map 64 0x5c secret refl short) refl

  -- For a secret of one block at most, a response is accepted exactly if it is the HMAC, under the
  -- secret, of the protocol's label followed by the challenge, and otherwise refused as an
  -- authentication failure.
  pub verify_authentication_iff :
      (secret challenge response : Bytes)
      → length secret ≤ 64
      → ((verify_authentication sha256 secret challenge response ≡ ok tt)
          ↔ (response ≡ hmac sha256 secret (label ++ challenge)))
        × ((verify_authentication sha256 secret challenge response ≡ err authentication)
            ↔ (¬ (response ≡ hmac sha256 secret (label ++ challenge))))
  unfolding verify_authentication
  verify_authentication_iff secret challenge response short =
      let m : Bytes = authentication_mac sha256 secret challenge in
      let same : m ≡ hmac sha256 secret (label ++ challenge) =
        authentication_mac-hmac secret challenge short in
      subst
        (λ k.
          ((verify_authentication sha256 secret challenge response ≡ ok tt) ↔ (response ≡ k))
          × ((verify_authentication sha256 secret challenge response ≡ err authentication)
              ↔ (¬ (response ≡ k))))
        same (ground (arith, ==_iff m response, ==_refl m))
