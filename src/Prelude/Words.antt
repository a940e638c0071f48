-- ===== src/Prelude/Words.antt =====
-- Bytes as numbers below 256, big-endian words of a given width, and 64-bit signed integers.
use Prim.Native.Nat.{ℕ, zero, suc, ◌+◌, ◌-◌, ◌*◌, ◌/◌, ◌%◌, ◌^◌, ◌<◌}
use native.Mathlib.Nat.{pow-suc}
use mathlib.Core.Path.{◌≡◌, ap, ◌∙◌}
use mathlib.Core.List.{List, [], ◌∷◌, ◌++◌, append-nil}
use native.Mathlib.Omega.{arith}
use secure_pub_sub.Prelude.Tests.{ltb, if◌then◌else◌}
use secure_pub_sub.Prelude.Lists.{length, All}

abbrev pub Bytes : Type 0
Bytes = List ℕ

abbrev pub IsByte : ℕ → Type 0
IsByte b = b < 256

-- A slice that holds bytes.
abbrev pub AreBytes : Bytes → Type 0
AreBytes = All IsByte

to_be : ℕ → ℕ → Bytes → Bytes
to_be zero n rest = rest
to_be (suc w) n rest = to_be w (n / 256) ((n % 256) ∷ rest)

from_be : ℕ → Bytes → ℕ
from_be acc [] = acc
from_be acc (b ∷ bs) = from_be (acc * 256 + b) bs

-- `n.to_be_bytes()` of a word of `w` bytes.
unfoldable pub be_bytes : ℕ → ℕ → Bytes
unfolding to_be
be_bytes w n = to_be w n []

-- `from_be_bytes(bytes)`
unfoldable pub be_value : Bytes → ℕ
unfolding from_be
be_value bs = from_be 0 bs

length-to_be : (w n : ℕ) (rest : Bytes) → length (to_be w n rest) ≡ w + length rest
unfolding to_be
length-to_be zero n rest = omega arith
length-to_be (suc w) n rest = omega (arith, length-to_be w (n / 256) ((n % 256) ∷ rest))

pub length-be_bytes : (w n : ℕ) → length (be_bytes w n) ≡ w
unfolding be_bytes
length-be_bytes w n = omega (arith, length-to_be w n [])

to_be-AreBytes : (w n : ℕ) (rest : Bytes) → AreBytes rest → AreBytes (to_be w n rest)
unfolding to_be
to_be-AreBytes zero n rest h = h
to_be-AreBytes (suc w) n rest h = to_be-AreBytes w (n / 256) ((n % 256) ∷ rest) (omega arith, h)

pub be_bytes-AreBytes : (w n : ℕ) → AreBytes (be_bytes w n)
unfolding be_bytes
be_bytes-AreBytes w n = to_be-AreBytes w n [] tt

from_be-to_be : (w n : ℕ) (rest : Bytes) → n < 256 ^ w → from_be 0 (to_be w n rest) ≡ from_be n rest
unfolding to_be from_be
from_be-to_be zero n rest h = ap (λ k. from_be k rest) (omega arith)
from_be-to_be (suc w) n rest h =
    from_be-to_be w (n / 256) ((n % 256) ∷ rest) (omega (arith, pow-suc 256 w))
    ∙ ap (λ k. from_be k rest) (omega arith)

-- A word that fits its width is read back.
pub be_value-be_bytes : (w n : ℕ) → n < 256 ^ w → be_value (be_bytes w n) ≡ n
unfolding be_value be_bytes from_be
be_value-be_bytes w n h = from_be-to_be w n [] h

to_be-from_be :
    (k acc : ℕ) (xs rest : Bytes)
    → AreBytes xs
    → to_be (k + length xs) (from_be acc xs) rest ≡ to_be k acc (xs ++ rest)
unfolding to_be from_be
to_be-from_be k acc [] rest h = ap (λ j. to_be j acc rest) {x = k + 0} {y = k} (omega arith)
to_be-from_be k acc (x ∷ xs) rest h =
    ap (λ j. to_be j (from_be (acc * 256 + x) xs) rest) {x = k + suc (length xs)}
      {y = suc k + length xs} (omega arith)
    ∙ to_be-from_be (suc k) (acc * 256 + x) xs rest h.1
    ∙ ap (λ a. to_be k a (((acc * 256 + x) % 256) ∷ xs ++ rest)) {x = (acc * 256 + x) / 256}
        {y = acc} (omega (arith, h.0))
    ∙ ap (λ b. to_be k acc (b ∷ xs ++ rest)) {x = (acc * 256 + x) % 256} {y = x}
        (omega (arith, h.0))

-- Bytes are the representation of their value.
pub be_bytes-be_value :
    (w : ℕ) (xs : Bytes) → AreBytes xs → length xs ≡ w → be_bytes w (be_value xs) ≡ xs
unfolding be_value be_bytes to_be
be_bytes-be_value w xs h e =
    ap (λ j. to_be j (from_be 0 xs) []) {x = w} {y = 0 + length xs} (omega arith)
    ∙ to_be-from_be 0 0 xs [] h
    ∙ append-nil xs

from_be-lt : (acc k : ℕ) (xs : Bytes) → AreBytes xs → acc < k → from_be acc xs < k * 256 ^ length xs
unfolding from_be
from_be-lt acc k [] h p = grind arith
from_be-lt acc k (x ∷ xs) h p = omega (
  arith,
  from_be-lt (acc * 256 + x) (k * 256) xs h.1 (omega (arith, h.0)),
  ap (λ (t : ℕ). k * t) (pow-suc 256 (length xs)),
)

-- The value of `w` bytes is a word of `w` bytes.
pub be_value-lt : (w : ℕ) (xs : Bytes) → AreBytes xs → length xs ≡ w → be_value xs < 256 ^ w
unfolding be_value
be_value-lt w xs h e = rw (← e) (omega (arith, from_be-lt 0 1 xs h (omega arith)))

-- `i64`: `negsuc n` is -(n + 1).
pub data ℤ : Type 0 where
  pos : ℕ → ℤ
  negsuc : ℕ → ℤ

abbrev pub IsI64 : ℤ → Type 0
IsI64 (pos n) = n < 2 ^ 63
IsI64 (negsuc n) = n < 2 ^ 63

-- The two's complement of an `i64`, and back.
abbrev pub i64_bits : ℤ → ℕ
i64_bits (pos n) = n
i64_bits (negsuc n) = 2 ^ 64 - 1 - n

abbrev pub i64_value : ℕ → ℤ
i64_value n = if ltb n (2 ^ 63) then pos n else negsuc (2 ^ 64 - 1 - n)

pub i64_value-i64_bits : (z : ℤ) → IsI64 z → i64_value (i64_bits z) ≡ z
i64_value-i64_bits (pos n) h = ground arith
i64_value-i64_bits (negsuc n) h = ground arith

pub i64_bits-lt : (z : ℤ) → IsI64 z → i64_bits z < 256 ^ 8
i64_bits-lt (pos n) h = omega arith
i64_bits-lt (negsuc n) h = omega arith

pub i64_bits-i64_value : (n : ℕ) → n < 256 ^ 8 → i64_bits (i64_value n) ≡ n
i64_bits-i64_value n h = ground arith

pub i64_value-IsI64 : (n : ℕ) → n < 256 ^ 8 → IsI64 (i64_value n)
i64_value-IsI64 n h = ground arith

-- `u64::saturating_add`
unfoldable pub saturating_add : ℕ → ℕ → ℕ
saturating_add a b = if ltb (a + b) (2 ^ 64) then a + b else 2 ^ 64 - 1
