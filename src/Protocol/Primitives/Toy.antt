-- ===== src/Protocol/Primitives/Toy.antt =====
-- A concrete instance of the primitives, for tests: it keeps the laws and hides nothing.
use native.Mathlib.Nat.{mul_comm}
use secure_pub_sub.Prelude.{
  ℕ, suc, ◌+◌, ◌*◌, ◌%◌, ◌≡◌, refl, ap, true, ◌∷◌, none, some, arith, leb, le→leb, ◌==◌, ==_refl,
  list_eq_iff, length, index, replicate, length-replicate, Bytes, if◌then◌else◌, ℕ-Eq, List-Eq,
}
use secure_pub_sub.Protocol.Primitives.{Primitives, IsSound, CryptoRandom, Fills}

-- The first byte stands for a key.
abbrev key_byte : Bytes → ℕ
key_byte key = index key 0 0 % 256

abbrev signature : Bytes → Bytes → Bytes
signature signing message = key_byte signing ∷ replicate 63 (length message % 256)

abbrev pub toy : Primitives
toy = record {
  x25519_public = λ secret. key_byte secret ∷ replicate 31 0;
  diffie_hellman = λ secret peer. ((key_byte secret * key_byte peer) % 255 + 1) ∷ replicate 31 0;
  verifying_key = λ signing. key_byte signing ∷ replicate 31 0;
  is_verifying_key = λ key. true;
  sign = signature;
  verify_strict = λ key message found. found == signature key message;
  expand = λ salt shared info n. if leb n 8160 then some (replicate n (length info)) else none;
  encrypt = λ key nonce associated plaintext.
      if leb (length plaintext) 4096 then some (plaintext, replicate 16 (key_byte key)) else none;
  decrypt = λ key nonce associated ciphertext tag.
      if tag == replicate 16 (key_byte key) then some ciphertext else none;
}

toy-length-decrypt :
    (key nonce associated c tag plaintext : Bytes)
    → toy.decrypt key nonce associated c tag ≡ some plaintext
    → length plaintext ≡ length c
toy-length-decrypt key nonce associated c tag plaintext h = ground arith

toy-agreement :
    (a b : Bytes)
    → toy.diffie_hellman a (toy.x25519_public b) ≡ toy.diffie_hellman b (toy.x25519_public a)
toy-agreement a b =
    let left : key_byte (toy.x25519_public b) ≡ key_byte b = omega arith in
    let right : key_byte (toy.x25519_public a) ≡ key_byte a = omega arith in
    rw (left, right, mul_comm (key_byte a) (key_byte b))

toy-verify-sign :
    (signing message : Bytes)
    → toy.verify_strict (toy.verifying_key signing) message (toy.sign signing message) ≡ true
toy-verify-sign signing message =
    (list_eq_iff (signature signing message) (signature (toy.verifying_key signing) message)).1
      (ap (λ k. k ∷ replicate 63 (length message % 256)) {x = key_byte signing} (omega arith))

pub toy-IsSound : IsSound toy
toy-IsSound = record {
  length-x25519_public = λ secret. omega (arith, length-replicate {A = ℕ} 31 0);
  agreement = toy-agreement;
  well_formed = λ signing. refl;
  verify-sign = toy-verify-sign;
  length-sign = λ signing message. ap suc (length-replicate 63 (length message % 256));
  expands = λ salt shared info n h. (
    replicate n (length info),
    rw (le→leb n 8160 (omega arith)),
    length-replicate n (length info),
  );
  encrypts = λ key nonce associated plaintext h. (
    plaintext,
    replicate 16 (key_byte key),
    rw (le→leb (length plaintext) 4096 h),
    refl,
    length-replicate 16 (key_byte key),
    rw (==_refl (replicate 16 (key_byte key))),
  );
  length-decrypt = toy-length-decrypt;
}

-- A generator that counts.
abbrev pub counter : CryptoRandom
counter = record {
  State = ℕ;
  fill_bytes = λ n s. (s + 1, replicate n (s % 256));
  ephemeral_secret = λ s. (s + 1, replicate 32 (s % 256));
}

pub counter-Fills : Fills counter
counter-Fills n s = length-replicate n (s % 256)
