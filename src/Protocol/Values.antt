-- ===== src/Protocol/Values.antt =====
-- Values, attributes and clauses of implementations/rust/crates/protocol-core/src/payload.rs, their
-- comparison, and the bytes that stand for them on the wire.
pub mod Order
use Prim.Native.Nat.{compare as nat_compare, Ordering}
use secure_pub_sub.Prelude.{
  ℕ, ◌<◌, ◌≤◌, Bool, true, false, List, [], ◌∷◌, ◌++◌, Option, none, some, length, Bytes, AreBytes,
  be_bytes, ℤ, pos, negsuc, IsI64, i64_bits,
}
use secure_pub_sub.Protocol.Types.{
  AttributeId, Operator, eq, ne, lt, le, gt, ge, operator_byte, max_attribute_bytes,
}

pub data ValueRef : Type 0 where
  bool : Bool → ValueRef
  i64 : ℤ → ValueRef
  bytes : Bytes → ValueRef

pub record AttributeRef : Type 0 where
  pub id : AttributeId
  pub value : ValueRef

pub record ClauseRef : Type 0 where
  pub attribute : AttributeId
  pub operator : Operator
  pub value : ValueRef

-- The orders of `bool`, `i64` and byte strings.
abbrev pub cmp_bool : Bool → Bool → Ordering
cmp_bool false false = Ordering.eq
cmp_bool false true = Ordering.lt
cmp_bool true false = Ordering.gt
cmp_bool true true = Ordering.eq

abbrev pub cmp_i64 : ℤ → ℤ → Ordering
cmp_i64 (pos a) (pos b) = nat_compare a b
cmp_i64 (pos a) (negsuc b) = Ordering.gt
cmp_i64 (negsuc a) (pos b) = Ordering.lt
cmp_i64 (negsuc a) (negsuc b) = nat_compare b a

unfoldable pub cmp_bytes : Bytes → Bytes → Ordering
cmp_bytes [] [] = Ordering.eq
cmp_bytes [] (b ∷ bs) = Ordering.lt
cmp_bytes (a ∷ rest) [] = Ordering.gt
cmp_bytes (a ∷ rest) (b ∷ bs) = elim (nat_compare a b) [
  | Ordering.eq ↦ cmp_bytes rest bs
  | Ordering.lt ↦ Ordering.lt
  | Ordering.gt ↦ Ordering.gt
]

-- `none` for values of different types.
unfoldable pub ordering : ValueRef → ValueRef → Option Ordering
ordering (bool a) (bool b) = some (cmp_bool a b)
ordering (i64 a) (i64 b) = some (cmp_i64 a b)
ordering (bytes a) (bytes b) = some (cmp_bytes a b)
ordering _ _ = none

unfoldable pub satisfies : Operator → Ordering → Bool
satisfies eq Ordering.eq = true
satisfies eq _ = false
satisfies ne Ordering.eq = false
satisfies ne _ = true
satisfies lt Ordering.lt = true
satisfies lt _ = false
satisfies le Ordering.gt = false
satisfies le _ = true
satisfies gt Ordering.gt = true
satisfies gt _ = false
satisfies ge Ordering.lt = false
satisfies ge _ = true

-- `compare` of payload.rs.
unfoldable pub compare : ValueRef → Operator → ValueRef → Bool
unfolding ordering satisfies
compare lhs operator rhs = elim (ordering lhs rhs) [ none ↦ false | some o ↦ satisfies operator o ]

abbrev pub bool_byte : Bool → ℕ
bool_byte false = 0
bool_byte true = 1

-- The wire format: a tag, and the value big-endian or behind its length.
unfoldable pub value_bytes : ValueRef → Bytes
value_bytes (bool b) = 1 ∷ bool_byte b ∷ []
value_bytes (i64 z) = 2 ∷ be_bytes 8 (i64_bits z)
value_bytes (bytes bs) = 3 ∷ (be_bytes 2 (length bs) ++ bs)

unfoldable pub attribute_bytes : AttributeRef → Bytes
attribute_bytes a = be_bytes 2 a.id ++ value_bytes a.value

unfoldable pub attributes_bytes : List AttributeRef → Bytes
attributes_bytes [] = []
attributes_bytes (a ∷ rest) = attribute_bytes a ++ attributes_bytes rest

unfoldable pub clause_bytes : ClauseRef → Bytes
clause_bytes c = be_bytes 2 c.attribute ++ (operator_byte c.operator ∷ value_bytes c.value)

unfoldable pub clauses_bytes : List ClauseRef → Bytes
clauses_bytes [] = []
clauses_bytes (c ∷ cs) = clause_bytes c ++ clauses_bytes cs

-- Values as Rust's types and the bound on byte strings admit them.
abbrev pub IsValue : ValueRef → Type 0
IsValue (bool b) = Unit {0}
IsValue (i64 z) = IsI64 z
IsValue (bytes bs) = (length bs ≤ max_attribute_bytes) × AreBytes bs

abbrev pub IsAttribute : AttributeRef → Type 0
IsAttribute a = (a.id < 65536) × IsValue a.value

abbrev pub IsClause : ClauseRef → Type 0
IsClause c = (c.attribute < 65536) × IsValue c.value
