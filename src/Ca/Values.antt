-- ===== src/Ca/Values.antt =====
-- Types, authorities and values of attributes in a policy, of
-- implementations/rust/crates/ca-core/src/lib.rs.
use secure_pub_sub.Prelude.{
  ℤ, pos, negsuc, Bool, true, false, not, List, nat_eq, any, Bytes, if◌then◌else◌, ◌==◌, ℕ-Eq,
  List-Eq, Pair-Eq,
}
use secure_pub_sub.Protocol.Values
use secure_pub_sub.Protocol.Values.{ValueRef, AttributeRef}

pub data AttributeType : Type 0 where
  bool_type i64_type bytes_type : AttributeType

abbrev pub type_eq : AttributeType → AttributeType → Bool
type_eq bool_type bool_type = true
type_eq i64_type i64_type = true
type_eq bytes_type bytes_type = true
type_eq _ _ = false

-- `AttributeType::matches`
abbrev pub matches : AttributeType → ValueRef → Bool
matches bool_type (Values.bool _) = true
matches i64_type (Values.i64 _) = true
matches bytes_type (Values.bytes _) = true
matches _ _ = false

pub data AttributeAuthority : Type 0 where
  self_declared ca_issued : AttributeAuthority

abbrev pub authority_eq : AttributeAuthority → AttributeAuthority → Bool
authority_eq self_declared self_declared = true
authority_eq ca_issued ca_issued = true
authority_eq _ _ = false

pub data AttributeValue : Type 0 where
  bool : Bool → AttributeValue
  i64 : ℤ → AttributeValue
  bytes : Bytes → AttributeValue

abbrev pub attribute_type : AttributeValue → AttributeType
attribute_type (bool _) = bool_type
attribute_type (i64 _) = i64_type
attribute_type (bytes _) = bytes_type

abbrev pub bool_eq : Bool → Bool → Bool
bool_eq a b = if a then b else not b

abbrev pub i64_eq : ℤ → ℤ → Bool
i64_eq (pos a) (pos b) = nat_eq a b
i64_eq (negsuc a) (negsuc b) = nat_eq a b
i64_eq _ _ = false

abbrev pub matches_ref : AttributeValue → ValueRef → Bool
matches_ref (bool a) (Values.bool b) = bool_eq a b
matches_ref (i64 a) (Values.i64 b) = i64_eq a b
matches_ref (bytes a) (Values.bytes b) = a == b
matches_ref _ _ = false

-- The value as an attribute of an environment shows it, for the derived equalities.
abbrev pub to_ref : AttributeValue → ValueRef
to_ref (bool a) = Values.bool a
to_ref (i64 a) = Values.i64 a
to_ref (bytes a) = Values.bytes a

abbrev pub from_ref : ValueRef → AttributeValue
from_ref (Values.bool a) = bool a
from_ref (Values.i64 a) = i64 a
from_ref (Values.bytes a) = bytes a

-- `left == right` on values, and `contains` on lists of them.
abbrev pub ref_eq : ValueRef → ValueRef → Bool
ref_eq a b = matches_ref (from_ref a) b

abbrev pub contains : List AttributeValue → AttributeValue → Bool
contains values value = any (λ v. matches_ref v (to_ref value)) values
