-- ===== src/Protocol/Operation.antt =====
-- `OperationRef` and `parse_operation` of implementations/rust/crates/protocol-core/src/payload.rs.
pub mod Wire
pub mod RoundTrip
pub mod Attributes
pub mod Arms
pub mod Canonical
use secure_pub_sub.Prelude.{
  ℕ, zero, suc, List, [], ◌∷◌, ◌++◌, leb, nat_eq, length, Bytes, Result, ok, err, if◌then◌else◌,
  ℕ-Eq,
}
use secure_pub_sub.Prelude.Keys.{mem}
use secure_pub_sub.Protocol.Types.{
  AgentId, TypeId, Error, malformed, oversized, max_attributes, max_attribute_bytes,
  max_value_bytes,
}
use secure_pub_sub.Protocol.Cursor
use secure_pub_sub.Protocol.Cursor.{Parser, PredicateRef, ◌>>=◌, ◌>>◌, pure, fail}
use secure_pub_sub.Protocol.Environment.{EnvironmentRef}

pub data OperationRef : Type 0 where
  set_environment : EnvironmentRef → OperationRef
  subscribe subscribe_permanent : TypeId → PredicateRef → OperationRef
  publish : TypeId → PredicateRef → Bytes → OperationRef
  publication_response : TypeId → AgentId → Bytes → OperationRef

-- The rounds over the attributes: `seen` is `ids[..index]`.
unfoldable pub skip_attributes : ℕ → List ℕ → Parser (Unit {0})
skip_attributes zero seen = pure tt
skip_attributes (suc n) seen = do
  id ← Cursor.u16
  if mem id seen
      then fail malformed
      else (do Cursor.value max_attribute_bytes; skip_attributes n (seen ++ id ∷ []))

unfoldable pub environment_operation : Parser OperationRef
environment_operation = do
  count ← Cursor.u8
  if leb count max_attributes
      then (do
        encoded ← Cursor.region (skip_attributes count [])
        pure (set_environment (record { encoded = encoded; count = count })))
      else fail oversized

unfoldable pub subscribe_operation : Parser OperationRef
subscribe_operation = do
  type_id ← Cursor.u32
  predicate ← Cursor.predicate
  pure (subscribe type_id predicate)

unfoldable pub permanent_operation : Parser OperationRef
permanent_operation = do
  type_id ← Cursor.u32
  predicate ← Cursor.predicate
  pure (subscribe_permanent type_id predicate)

unfoldable pub publish_operation : Parser OperationRef
publish_operation = do
  type_id ← Cursor.u32
  predicate ← Cursor.predicate
  value ← Cursor.bytes_u16 max_value_bytes
  pure (publish type_id predicate value)

unfoldable pub response_operation : Parser OperationRef
response_operation = do
  type_id ← Cursor.u32
  publisher ← Cursor.take 16
  value ← Cursor.bytes_u16 max_value_bytes
  pure (publication_response type_id publisher value)

-- The arms of the match on the operation code.
unfoldable pub operation : Parser OperationRef
operation = do
  code ← Cursor.u8
  if nat_eq code 1
      then environment_operation
      else if nat_eq code 5
      then subscribe_operation
      else if nat_eq code 2
      then permanent_operation
      else if nat_eq code 3
      then publish_operation
      else if nat_eq code 4
      then response_operation
      else fail malformed

unfoldable pub parse_operation : Bytes → Result Error OperationRef
parse_operation input = elim (operation (Cursor.new input)) [
  | ok (op, c) ↦ if nat_eq c.position (length input) then ok op else err malformed
  | err e ↦ err e
]
