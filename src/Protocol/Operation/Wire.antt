-- ===== src/Protocol/Operation/Wire.antt =====
-- The operations as lists of attributes and clauses, their bytes, and the views that the parser
-- returns for them.
use secure_pub_sub.Prelude.{
  ℕ, ◌≤◌, ◌<◌, ◌^◌, ◌≡◌, false, List, [], ◌∷◌, ◌++◌, length, Bytes, AreBytes, be_bytes, ℕ-Eq,
}
use secure_pub_sub.Prelude.Keys.{mem}
use secure_pub_sub.Protocol.Types.{AgentId, TypeId, max_attributes, max_clauses, max_value_bytes}
use secure_pub_sub.Protocol.Values.{AttributeRef, ClauseRef, attributes_bytes, clauses_bytes}
use secure_pub_sub.Protocol.Cursor.Reads.{AllClauses}
use secure_pub_sub.Protocol.Environment.Meaning.{AllAttributes, environment_of, predicate_of}
use secure_pub_sub.Protocol.Operation.{
  OperationRef, set_environment, subscribe, subscribe_permanent, publish, publication_response,
}

pub data Operation : Type 0 where
  environment : List AttributeRef → Operation
  subscription permanent_subscription : TypeId → List ClauseRef → Operation
  publication : TypeId → List ClauseRef → Bytes → Operation
  response : TypeId → AgentId → Bytes → Operation

-- No attribute has an identifier that was seen before.
abbrev pub Fresh : List ℕ → List AttributeRef → Type 0
Fresh seen [] = Unit {0}
Fresh seen (a ∷ rest) = (mem a.id seen ≡ false) × Fresh (seen ++ a.id ∷ []) rest

abbrev pub AreClauses : List ClauseRef → Type 0
AreClauses cs = AllClauses cs × (length cs ≤ max_clauses)

abbrev pub IsPayload : Bytes → Type 0
IsPayload value = (length value ≤ max_value_bytes) × AreBytes value

-- The operations within the bounds of the protocol.
abbrev pub IsOperation : Operation → Type 0
IsOperation (environment attributes) =
    AllAttributes attributes × Fresh [] attributes × (length attributes ≤ max_attributes)
IsOperation (subscription type_id cs) = (type_id < 2 ^ 32) × AreClauses cs
IsOperation (permanent_subscription type_id cs) = (type_id < 2 ^ 32) × AreClauses cs
IsOperation (publication type_id cs value) = (type_id < 2 ^ 32) × AreClauses cs × IsPayload value
IsOperation (response type_id publisher value) =
    (type_id < 2 ^ 32) × (length publisher ≡ 16) × AreBytes publisher × IsPayload value

abbrev pub predicate_bytes : List ClauseRef → Bytes
predicate_bytes cs = length cs ∷ clauses_bytes cs

abbrev pub payload_bytes : Bytes → Bytes
payload_bytes value = be_bytes 2 (length value) ++ value

-- An operation code, and the fields.
unfoldable pub operation_bytes : Operation → Bytes
operation_bytes (environment attributes) = 1 ∷ length attributes ∷ attributes_bytes attributes
operation_bytes (subscription type_id cs) = 5 ∷ (be_bytes 4 type_id ++ predicate_bytes cs)
operation_bytes (permanent_subscription type_id cs) = 2 ∷ (be_bytes 4 type_id ++ predicate_bytes cs)
operation_bytes (publication type_id cs value) =
    3 ∷ (be_bytes 4 type_id ++ (predicate_bytes cs ++ payload_bytes value))
operation_bytes (response type_id publisher value) =
    4 ∷ (be_bytes 4 type_id ++ (publisher ++ payload_bytes value))

unfoldable pub view : Operation → OperationRef
view (environment attributes) = set_environment (environment_of attributes)
view (subscription type_id cs) = subscribe type_id (predicate_of cs)
view (permanent_subscription type_id cs) = subscribe_permanent type_id (predicate_of cs)
view (publication type_id cs value) = publish type_id (predicate_of cs) value
view (response type_id publisher value) = publication_response type_id publisher value
