-- ===== src/Protocol/Primitives.antt =====
-- The cryptographic crates that protocol-core calls, as an interface: x25519-dalek, ed25519-dalek,
-- hkdf over sha2, and chacha20poly1305. Secrets, keys, signatures and tags are arrays of bytes.
pub mod Toy
use secure_pub_sub.Prelude.{
  ℕ, ◌*◌, ◌≤◌, ◌≡◌, Bool, true, Option, none, some, length, Bytes, is_some,
}

pub record Primitives : Type 0 where
  -- `PublicKey::from(&secret).to_bytes()`
  pub x25519_public : Bytes → Bytes
  -- `secret.diffie_hellman(&peer).to_bytes()`
  pub diffie_hellman : Bytes → Bytes → Bytes
  -- `signing.verifying_key().to_bytes()`
  pub verifying_key : Bytes → Bytes
  -- `VerifyingKey::from_bytes(..).is_ok()`
  pub is_verifying_key : Bytes → Bool
  -- `signing.sign(message).to_bytes()`
  pub sign : (signing message : Bytes) → Bytes
  -- `key.verify_strict(message, signature).is_ok()`
  pub verify_strict : (key message signature : Bytes) → Bool
  -- `Hkdf::<Sha256>::new(Some(salt), shared).expand(info, output)` for an output of a length.
  pub expand : (salt shared info : Bytes) → ℕ → Option Bytes
  -- `encrypt_inout_detached`: the ciphertext and the tag.
  pub encrypt : (key nonce associated plaintext : Bytes) → Option (Bytes × Bytes)
  -- `decrypt_inout_detached`
  pub decrypt : (key nonce associated ciphertext tag : Bytes) → Option Bytes

-- The documented behaviour of the crates.
pub record IsSound (p : Primitives) : Type 0 where
  pub length-x25519_public : (secret : Bytes) → length (p.x25519_public secret) ≡ 32
  -- X25519: both parties compute the same secret.
  pub agreement :
      (a b : Bytes)
      → p.diffie_hellman a (p.x25519_public b) ≡ p.diffie_hellman b (p.x25519_public a)
  -- A signing key's public key is well-formed and verifies what the key signs.
  pub well_formed : (signing : Bytes) → p.is_verifying_key (p.verifying_key signing) ≡ true
  pub verify-sign :
      (signing message : Bytes)
      → p.verify_strict (p.verifying_key signing) message (p.sign signing message) ≡ true
  pub length-sign : (signing message : Bytes) → length (p.sign signing message) ≡ 64
  -- HKDF-SHA256 gives every length up to 255 blocks.
  pub expands :
      (salt shared info : Bytes) (n : ℕ)
      → n ≤ 255 * 32
      → (okm : Bytes) × (p.expand salt shared info n ≡ some okm) × (length okm ≡ n)
  -- ChaCha20-Poly1305 seals every plaintext of the protocol, and opens what it sealed.
  pub encrypts :
      (key nonce associated plaintext : Bytes)
      → length plaintext ≤ 4096
      → (c : Bytes) × (tag : Bytes) × (p.encrypt key nonce associated plaintext ≡ some (c, tag))
        × (length c ≡ length plaintext)
        × (length tag ≡ 16)
        × (p.decrypt key nonce associated c tag ≡ some plaintext)
  pub length-decrypt :
      (key nonce associated c tag plaintext : Bytes)
      → p.decrypt key nonce associated c tag ≡ some plaintext
      → length plaintext ≡ length c

-- `rand_core::CryptoRng` and `EphemeralSecret::random_from_rng`: a generator and its draws.
pub record CryptoRandom : Type 1 where
  pub State : Type 0
  pub fill_bytes : ℕ → State → State × Bytes
  pub ephemeral_secret : State → State × Bytes

-- `fill_bytes` fills the whole slice.
abbrev pub Fills : CryptoRandom → Type 0
Fills r = (n : ℕ) (s : r.State) → length (r.fill_bytes n s).1 ≡ n
