-- ===== src/Protocol/Encode.antt =====
-- The encoders of implementations/rust/crates/protocol-core/src/payload.rs.
pub mod RoundTrip
use secure_pub_sub.Prelude.{
  ℕ, ◌^◌, Bool, true, false, List, [], ◌∷◌, ◌++◌, leb, ltb, length, Bytes, Result, ok, err,
  if◌then◌else◌, ℕ-Eq,
}
use secure_pub_sub.Prelude.Keys.{mem}
use secure_pub_sub.Protocol.Types.{
  AgentId, TypeId, Error, malformed, oversized, max_attributes, max_value_bytes,
}
use secure_pub_sub.Protocol.Values.{AttributeRef, ClauseRef}
use secure_pub_sub.Protocol.Writer
use secure_pub_sub.Protocol.Writer.{Writing, ◌>>◌, ensure}

-- `ensure_unique_attributes`: no attribute has the identifier of an earlier one.
unfoldable pub unique_after : List ℕ → List AttributeRef → Bool
unique_after seen [] = true
unique_after seen (a ∷ rest) =
    let later = unique_after (seen ++ a.id ∷ []) rest in if mem a.id seen then false else later

-- The output after a run of the writer from its start, and `writer.position()`.
unfoldable pub finish : Writing → Bytes → Result Error (Bytes × ℕ)
finish m output = elim (m (Writer.new output)) [ ok w ↦ ok (w.output, w.position) | err e ↦ err e ]

unfoldable pub environment : List AttributeRef → Writing
environment attributes = do
  ensure (leb (length attributes) max_attributes) oversized
  ensure (unique_after [] attributes) malformed
  Writer.u8 1
  ensure (ltb (length attributes) (2 ^ 8)) oversized
  Writer.u8 (length attributes)
  Writer.attributes attributes

unfoldable pub encode_environment : Bytes → List AttributeRef → Result Error (Bytes × ℕ)
unfolding finish environment
encode_environment output attributes = finish (environment attributes) output

unfoldable pub subscription : TypeId → List ClauseRef → Writing
subscription type_id clauses = do Writer.u8 5; Writer.u32 type_id; Writer.predicate clauses

unfoldable pub encode_subscribe : Bytes → TypeId → List ClauseRef → Result Error (Bytes × ℕ)
unfolding finish subscription
encode_subscribe output type_id clauses = finish (subscription type_id clauses) output

unfoldable pub permanent_subscription : TypeId → List ClauseRef → Writing
permanent_subscription type_id clauses = do
  Writer.u8 2
  Writer.u32 type_id
  Writer.predicate clauses

unfoldable pub encode_subscribe_permanent :
    Bytes → TypeId → List ClauseRef → Result Error (Bytes × ℕ)
unfolding finish permanent_subscription
encode_subscribe_permanent output type_id clauses =
    finish (permanent_subscription type_id clauses) output

unfoldable pub publication : TypeId → List ClauseRef → Bytes → Writing
publication type_id clauses value = do
  ensure (leb (length value) max_value_bytes) oversized
  Writer.u8 3
  Writer.u32 type_id
  Writer.predicate clauses
  Writer.bytes_u16 value max_value_bytes

unfoldable pub encode_publish : Bytes → TypeId → List ClauseRef → Bytes → Result Error (Bytes × ℕ)
unfolding finish publication
encode_publish output type_id clauses value = finish (publication type_id clauses value) output

unfoldable pub response : TypeId → AgentId → Bytes → Writing
response type_id publisher value = do
  ensure (leb (length value) max_value_bytes) oversized
  Writer.u8 4
  Writer.u32 type_id
  Writer.raw publisher
  Writer.bytes_u16 value max_value_bytes

unfoldable pub encode_response : Bytes → TypeId → AgentId → Bytes → Result Error (Bytes × ℕ)
unfolding finish response
encode_response output type_id publisher value = finish (response type_id publisher value) output
