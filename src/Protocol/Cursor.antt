-- ===== src/Protocol/Cursor.antt =====
-- `Cursor` of implementations/rust/crates/protocol-core/src/payload.rs.
pub mod Reads
pub mod Parses
pub mod Accepted
use secure_pub_sub.Prelude.{
  ℕ, zero, suc, ◌+◌, Bool, true, false, List, [], ◌∷◌, ◌++◌, Option, none, some, leb, nat_eq,
  length, slice, index, Bytes, be_value, i64_value, Result, ok, err, if◌then◌else◌,
}
use secure_pub_sub.Protocol.Types.{
  AttributeId, Operator, operator_from_u8, Error, malformed, oversized, max_attribute_bytes,
  max_clauses,
}
use secure_pub_sub.Protocol.Values.{ValueRef, bool, i64, bytes}

pub record Cursor : Type 0 where
  pub input : Bytes
  pub position : ℕ

abbrev pub new : Bytes → Cursor
new input = record { input = input; position = 0 }

-- A method on `&mut Cursor` that returns a `Result`. No caller reads the cursor after an error.
abbrev pub Parser {ℓ} : Type ℓ → Type ℓ
Parser A = Cursor → Result Error (A × Cursor)

infixl 5 ◌>>=◌ ◌>>◌
abbrev pub ◌>>=◌ {ℓ κ} : {A : Type ℓ} {B : Type κ} → Parser A → (A → Parser B) → Parser B
◌>>=◌ m f c = elim (m c) [ ok (a, c') ↦ f a c' | err e ↦ err e ]

abbrev pub ◌>>◌ {ℓ κ} : {A : Type ℓ} {B : Type κ} → Parser A → Parser B → Parser B
m >> k = m >>= λ _. k

abbrev pub pure {ℓ} : {A : Type ℓ} → A → Parser A
pure a c = ok (a, c)

abbrev pub fail {ℓ} : {A : Type ℓ} → Error → Parser A
fail e c = err e

abbrev pub require {ℓ} : {A : Type ℓ} → Option A → Error → Parser A
require none e = fail e
require (some a) e = pure a

-- `usize` has 64 bits and a slice is shorter, so the checked sum does not overflow.
unfoldable pub take : ℕ → Parser Bytes
take n c =
    if leb (c.position + n) (length c.input)
    then ok (slice c.input c.position (c.position + n), record c { position = c.position + n })
    else err malformed

unfoldable pub u8 : Parser ℕ
u8 = do taken ← take 1; pure (index taken 0 0)

unfoldable pub u16 : Parser ℕ
u16 = do taken ← take 2; pure (be_value taken)

unfoldable pub u32 : Parser ℕ
u32 = do taken ← take 4; pure (be_value taken)

unfoldable pub bytes_u16 : ℕ → Parser Bytes
bytes_u16 maximum = do n ← u16; if leb n maximum then take n else fail oversized

bool_value : ℕ → Parser ValueRef
bool_value b =
    if nat_eq b 0
    then pure (bool false)
    else if nat_eq b 1
    then pure (bool true)
    else fail malformed

unfoldable pub value : ℕ → Parser ValueRef
unfolding bool_value
value maximum_bytes = do
  tag ← u8
  if nat_eq tag 1
      then (do b ← u8; bool_value b)
      else if nat_eq tag 2
      then (do taken ← take 8; pure (i64 (i64_value (be_value taken))))
      else if nat_eq tag 3
      then (do bs ← bytes_u16 maximum_bytes; pure (bytes bs))
      else fail malformed

-- The bytes that a parser moves over: `start = position`, the parser, and `&input[start..position]`.
unfoldable pub region {ℓ} : {A : Type ℓ} → Parser A → Parser Bytes
region m c = elim (m c) [
  | ok (a, c') ↦ ok (slice c.input c.position c'.position, c')
  | err e ↦ err e
]

unfoldable pub skip_clauses : ℕ → Parser (Unit {0})
skip_clauses zero = pure tt
skip_clauses (suc n) = do
  u16
  b ← u8
  require (operator_from_u8 b) malformed
  value max_attribute_bytes
  skip_clauses n

pub record PredicateRef : Type 0 where
  pub encoded : Bytes
  pub count : ℕ

-- Its argument `complete` is the cursor's own input at each call.
unfoldable pub predicate : Parser PredicateRef
predicate = do
  count ← u8
  if leb count max_clauses
      then (do
        encoded ← region (skip_clauses count)
        pure (record { encoded = encoded; count = count }))
      else fail oversized
