-- ===== src/Protocol/Crypto/Placed.antt =====
-- A plaintext that was written behind the place of the header, as the callers of `seal_in_place` of
-- implementations/rust/crates/protocol-core/src/crypto.rs do.
use secure_pub_sub.Prelude.{
  ◌+◌, ◌≤◌, ◌≡◌, refl, ap, ◌∙◌, ◌++◌, arith, length, length-append, length-take-le, take, drop,
  take-length_append, drop-length_append, Bytes,
}

module _ (frame m tail : Bytes) (wide : 148 ≤ length frame) where
  abbrev pub placed : Bytes
  placed = take 148 frame ++ (m ++ tail)

  length-front : length (take 148 frame) ≡ 148
  length-front = length-take-le 148 frame wide

  pub length-placed : length placed ≡ 148 + length m + length tail
  length-placed =
      omega (arith, length-front, length-append (take 148 frame) (m ++ tail), length-append m tail)

  pub plaintext-placed : take (length m) (drop 148 placed) ≡ m
  plaintext-placed =
      ap (take (length m)) (drop-length_append 148 (take 148 frame) (m ++ tail) length-front)
      ∙ take-length_append (length m) m tail refl
