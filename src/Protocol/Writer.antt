-- ===== src/Protocol/Writer.antt =====
-- `Writer` of implementations/rust/crates/protocol-core/src/payload.rs.
pub mod Writes
pub mod Payloads
use secure_pub_sub.Prelude.{
  ℕ, ◌+◌, ◌^◌, Bool, true, false, List, [], ◌∷◌, ◌++◌, leb, ltb, length, take, drop, Bytes,
  be_bytes, i64_bits, Result, ok, err, if◌then◌else◌,
}
use secure_pub_sub.Protocol.Types.{
  operator_byte, Error, oversized, max_attribute_bytes, max_clauses,
}
use secure_pub_sub.Protocol.Values.{ValueRef, AttributeRef, ClauseRef, bool, i64, bytes, bool_byte}

pub record Writer : Type 0 where
  pub output : Bytes
  pub position : ℕ

abbrev pub new : Bytes → Writer
new output = record { output = output; position = 0 }

-- A method on `&mut Writer` that returns `Result<(), Error>`.
abbrev pub Writing : Type 0
Writing = Writer → Result Error Writer

infixl 5 ◌>>◌
abbrev pub ◌>>◌ : Writing → Writing → Writing
◌>>◌ m k w = elim (m w) [ ok w' ↦ k w' | err e ↦ err e ]

abbrev pub done : Writing
done w = ok w

abbrev pub ensure : Bool → Error → Writing
ensure true e w = ok w
ensure false e w = err e

-- `usize` has 64 bits and a slice is shorter, so the checked sum does not overflow.
unfoldable pub raw : Bytes → Writing
raw value w =
    let end = w.position + length value in
    if leb end (length w.output)
    then ok (record {
      output = take w.position w.output ++ (value ++ drop end w.output);
      position = end;
    })
    else err oversized

unfoldable pub u8 : ℕ → Writing
unfolding raw
u8 value = raw (value ∷ [])

unfoldable pub u16 : ℕ → Writing
unfolding raw
u16 value = raw (be_bytes 2 value)

unfoldable pub u32 : ℕ → Writing
unfolding raw
u32 value = raw (be_bytes 4 value)

unfoldable pub bytes_u16 : Bytes → ℕ → Writing
bytes_u16 value maximum = do
  ensure (leb (length value) maximum) oversized
  ensure (ltb (length value) (2 ^ 16)) oversized
  u16 (length value)
  raw value

unfoldable pub value : ValueRef → ℕ → Writing
value (bool b) maximum_bytes = do u8 1; u8 (bool_byte b)
value (i64 z) maximum_bytes = do u8 2; raw (be_bytes 8 (i64_bits z))
value (bytes bs) maximum_bytes = do u8 3; bytes_u16 bs maximum_bytes

unfoldable pub attributes : List AttributeRef → Writing
attributes [] = done
attributes (a ∷ rest) = do u16 a.id; value a.value max_attribute_bytes; attributes rest

unfoldable pub clauses : List ClauseRef → Writing
clauses [] = done
clauses (c ∷ rest) = do
  u16 c.attribute
  u8 (operator_byte c.operator)
  value c.value max_attribute_bytes
  clauses rest

unfoldable pub predicate : List ClauseRef → Writing
predicate cs = do
  ensure (leb (length cs) max_clauses) oversized
  ensure (ltb (length cs) (2 ^ 8)) oversized
  u8 (length cs)
  clauses cs
