-- ===== src/Protocol/Operation/RoundTrip.antt =====
-- `parse_operation` reads back the bytes of every operation within the bounds.
use secure_pub_sub.Prelude.{
  ℕ, ◌+◌, ◌<◌, ◌^◌, ◌≡◌, refl, sym, true, List, [], ◌∷◌, ◌++◌, append_assoc, append-nil, arith, leb,
  le→leb, nat_eq, nat_eq_iff, length, Bytes, be_bytes, ok, ℕ-Eq,
}
use secure_pub_sub.Prelude.Keys.{mem}
use secure_pub_sub.Protocol.Types.{max_attributes, max_attribute_bytes, max_value_bytes}
use secure_pub_sub.Protocol.Values.{
  AttributeRef, ClauseRef, value_bytes, attribute_bytes, attributes_bytes,
}
use secure_pub_sub.Protocol.Cursor
use secure_pub_sub.Protocol.Cursor.{Parser, ◌>>=◌, ◌>>◌, pure}
use secure_pub_sub.Protocol.Cursor.Reads.{
  At, Reads, Reads-pure, Reads-if_true, Reads-if_false, Reads-bind, Reads-map, Reads-take, Reads-u8,
  Reads-u16, Reads-u32, Reads-bytes_u16, Reads-value, Reads-region, Reads-predicate,
}
use secure_pub_sub.Protocol.Environment.Meaning.{AllAttributes, environment_of, predicate_of}
use secure_pub_sub.Protocol.Operation.{
  set_environment, subscribe, subscribe_permanent, publish, publication_response, skip_attributes,
  environment_operation, subscribe_operation, permanent_operation, publish_operation,
  response_operation, operation, parse_operation,
}
use secure_pub_sub.Protocol.Operation.Wire.{
  Operation, environment, subscription, permanent_subscription, publication, response, Fresh,
  AreClauses, IsPayload, IsOperation, predicate_bytes, payload_bytes, operation_bytes, view,
}

Reads-skip_attributes :
    (attributes : List AttributeRef) (seen : List ℕ)
    → AllAttributes attributes
    → Fresh seen attributes
    → Reads (skip_attributes (length attributes) seen) (attributes_bytes attributes) tt
unfolding skip_attributes attributes_bytes attribute_bytes
Reads-skip_attributes [] seen w f = Reads-pure tt
Reads-skip_attributes (a ∷ rest) seen w f = rw append_assoc (
    Reads-bind Cursor.u16 _ (be_bytes 2 a.id) _ (Reads-u16 a.id w.0.0) (
      Reads-if_false (mem a.id seen) _ _ (value_bytes a.value ++ attributes_bytes rest) f.0 (
        Reads-bind (Cursor.value max_attribute_bytes) _ (value_bytes a.value)
          (attributes_bytes rest) (Reads-value a.value w.0.1)
          (Reads-skip_attributes rest (seen ++ a.id ∷ []) w.1 f.1))))

Reads-environment :
    (attributes : List AttributeRef)
    → IsOperation (environment attributes)
    → Reads environment_operation
        (length attributes ∷ attributes_bytes attributes)
        (set_environment (environment_of attributes))
unfolding environment_operation
Reads-environment attributes (w, f, short) =
    Reads-bind Cursor.u8 _ (length attributes ∷ []) (attributes_bytes attributes)
      (Reads-u8 (length attributes))
      (Reads-if_true (leb (length attributes) max_attributes) _ _ (attributes_bytes attributes)
        (le→leb _ _ short)
        (Reads-map (Cursor.region (skip_attributes (length attributes) []))
          (λ e. set_environment (record { encoded = e; count = length attributes }))
          (attributes_bytes attributes)
          (Reads-region (skip_attributes (length attributes) []) (attributes_bytes attributes)
            (Reads-skip_attributes attributes [] w f))
          refl))

Reads-payload :
    (value : Bytes)
    → IsPayload value
    → Reads (Cursor.bytes_u16 max_value_bytes) (payload_bytes value) value
Reads-payload value h = Reads-bytes_u16 max_value_bytes value h.0 (omega arith)

module _ (type_id : ℕ) (small : type_id < 2 ^ 32) where
  Reads-subscribe :
      (cs : List ClauseRef)
      → AreClauses cs
      → Reads subscribe_operation
          (be_bytes 4 type_id ++ predicate_bytes cs)
          (subscribe type_id (predicate_of cs))
  unfolding subscribe_operation
  Reads-subscribe cs h =
      Reads-bind Cursor.u32 _ (be_bytes 4 type_id) (predicate_bytes cs) (Reads-u32 type_id small) (
        Reads-map Cursor.predicate (subscribe type_id) (predicate_bytes cs)
          (Reads-predicate cs h.0 h.1) refl)

  Reads-permanent :
      (cs : List ClauseRef)
      → AreClauses cs
      → Reads permanent_operation
          (be_bytes 4 type_id ++ predicate_bytes cs)
          (subscribe_permanent type_id (predicate_of cs))
  unfolding permanent_operation
  Reads-permanent cs h =
      Reads-bind Cursor.u32 _ (be_bytes 4 type_id) (predicate_bytes cs) (Reads-u32 type_id small) (
        Reads-map Cursor.predicate (subscribe_permanent type_id) (predicate_bytes cs)
          (Reads-predicate cs h.0 h.1) refl)

  Reads-publish :
      (cs : List ClauseRef) (value : Bytes)
      → AreClauses cs
      → IsPayload value
      → Reads publish_operation
          (be_bytes 4 type_id ++ (predicate_bytes cs ++ payload_bytes value))
          (publish type_id (predicate_of cs) value)
  unfolding publish_operation
  Reads-publish cs value h v =
      Reads-bind Cursor.u32 _ (be_bytes 4 type_id) _ (Reads-u32 type_id small) (
        Reads-bind Cursor.predicate _ (predicate_bytes cs) (payload_bytes value)
          (Reads-predicate cs h.0 h.1)
          (Reads-map (Cursor.bytes_u16 max_value_bytes) (publish type_id (predicate_of cs))
            (payload_bytes value) (Reads-payload value v) refl))

  Reads-response :
      (publisher value : Bytes)
      → length publisher ≡ 16
      → IsPayload value
      → Reads response_operation
          (be_bytes 4 type_id ++ (publisher ++ payload_bytes value))
          (publication_response type_id publisher value)
  unfolding response_operation
  Reads-response publisher value wide v =
      Reads-bind Cursor.u32 _ (be_bytes 4 type_id) _ (Reads-u32 type_id small) (
        Reads-bind (Cursor.take 16) _ publisher (payload_bytes value) (Reads-take 16 publisher wide)
          (Reads-map (Cursor.bytes_u16 max_value_bytes) (publication_response type_id publisher)
            (payload_bytes value) (Reads-payload value v) refl))

Reads-operation : (o : Operation) → IsOperation o → Reads operation (operation_bytes o) (view o)
unfolding operation operation_bytes view
Reads-operation (environment attributes) w =
    Reads-bind Cursor.u8 _ (1 ∷ []) _ (Reads-u8 1) (Reads-environment attributes w)
Reads-operation (subscription type_id cs) w =
    Reads-bind Cursor.u8 _ (5 ∷ []) _ (Reads-u8 5) (Reads-subscribe type_id w.0 cs w.1)
Reads-operation (permanent_subscription type_id cs) w =
    Reads-bind Cursor.u8 _ (2 ∷ []) _ (Reads-u8 2) (Reads-permanent type_id w.0 cs w.1)
Reads-operation (publication type_id cs value) w =
    Reads-bind Cursor.u8 _ (3 ∷ []) _ (Reads-u8 3) (Reads-publish type_id w.0 cs value w.1 w.2)
Reads-operation (response type_id publisher value) w =
    Reads-bind Cursor.u8 _ (4 ∷ []) _ (Reads-u8 4)
      (Reads-response type_id w.0 publisher value w.1 w.3)

-- Every operation within the bounds of the protocol is read back from its bytes, as the view of its
-- attributes, clauses and value.
pub parse-operation_bytes :
    (o : Operation) → IsOperation o → parse_operation (operation_bytes o) ≡ ok (view o)
unfolding parse_operation
parse-operation_bytes o w =
    let xs : Bytes = operation_bytes o in
    let at_start : At (Cursor.new xs) (xs ++ []) = record {
      within = omega arith;
      here = sym (append-nil xs);
    } in
    let whole : nat_eq (0 + length xs) (length xs) ≡ true = (nat_eq_iff _ _).1 (omega arith) in
    rw (parse_operation, (Reads-operation o w).run (Cursor.new xs) [] at_start, whole) refl
