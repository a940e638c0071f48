-- ===== src/Protocol/Encode/RoundTrip.antt =====
-- What the encode functions put into an output, and that `parse_operation` reads it back.
use secure_pub_sub.Prelude.{
  ℕ, ◌+◌, ◌≤◌, ◌^◌, ◌≡◌, refl, sym, ap, ◌∙◌, true, false, List, [], ◌∷◌, ◌++◌, arith, leb, ltb,
  le→leb, lt→ltb, Bool-cases, inl, inr, length, take, drop, take-length_append, Bytes, be_bytes,
  Result, ok, err, if◌then◌else◌, ℕ-Eq,
}
use secure_pub_sub.Protocol.Types.{Error, malformed, oversized, max_attributes, max_value_bytes}
use secure_pub_sub.Protocol.Values.{AttributeRef, attributes_bytes}
use secure_pub_sub.Protocol.Writer
use secure_pub_sub.Protocol.Writer.{Writing, ◌>>◌}
use secure_pub_sub.Protocol.Writer.Writes.{
  Writes, Writes-raw, Writes-u8, Writes-u32, Writes-seq, Writes-ensure, Writes-bytes_u16,
}
use secure_pub_sub.Protocol.Writer.Payloads.{Writes-attributes, Writes-predicate}
use secure_pub_sub.Protocol.Encode
use secure_pub_sub.Protocol.Encode.{unique_after, finish}
use secure_pub_sub.Protocol.Operation.{parse_operation}
use secure_pub_sub.Protocol.Operation.Wire.{
  Operation, environment, subscription, permanent_subscription, publication, response, Fresh,
  IsOperation, operation_bytes, view,
}
use secure_pub_sub.Protocol.Operation.RoundTrip.{parse-operation_bytes}

-- The encode function of an operation.
abbrev pub encode_operation : Bytes → Operation → Result Error (Bytes × ℕ)
encode_operation output (environment attributes) = Encode.encode_environment output attributes
encode_operation output (subscription type_id cs) = Encode.encode_subscribe output type_id cs
encode_operation output (permanent_subscription type_id cs) =
    Encode.encode_subscribe_permanent output type_id cs
encode_operation output (publication type_id cs value) =
    Encode.encode_publish output type_id cs value
encode_operation output (response type_id publisher value) =
    Encode.encode_response output type_id publisher value

-- These bytes at the start of the output, when they fit.
abbrev pub at_start : Bytes → Bytes → Result Error (Bytes × ℕ)
at_start xs output =
    if leb (length xs) (length output)
    then ok (xs ++ drop (length xs) output, length xs)
    else err oversized

abbrev finished : Result Error Writer.Writer → Result Error (Bytes × ℕ)
finished (ok w) = ok (w.output, w.position)
finished (err e) = err e

finish-Writes :
    (m : Writing) (xs output : Bytes) → Writes m xs → finish m output ≡ at_start xs output
unfolding finish
finish-Writes m xs output r =
    let zero_plus : 0 + length xs ≡ length xs = omega arith in
    ap finished (r.run (Writer.new output) (omega arith))
    ∙ elim (Bool-cases (leb (length xs) (length output))) [
      | inl l ↦
          let l' : leb (0 + length xs) (length output) ≡ true =
            ap (λ n. leb n (length output)) zero_plus ∙ l in
          rw (l, l') (ap (λ n. ok (xs ++ drop n output, n)) zero_plus)
      | inr l ↦
          let l' : leb (0 + length xs) (length output) ≡ false =
            ap (λ n. leb n (length output)) zero_plus ∙ l in
          rw (l, l') refl
    ]

unique_after-Fresh :
    (seen : List ℕ) (attributes : List AttributeRef)
    → Fresh seen attributes
    → unique_after seen attributes ≡ true
unfolding unique_after
unique_after-Fresh seen [] f = refl
unique_after-Fresh seen (a ∷ rest) f =
    rw (f.0, unique_after-Fresh (seen ++ a.id ∷ []) rest f.1) refl

Writes-payload :
    (value : Bytes)
    → length value ≤ max_value_bytes
    → Writes (Writer.bytes_u16 value max_value_bytes) (be_bytes 2 (length value) ++ value)
Writes-payload value short = Writes-bytes_u16 value max_value_bytes short (omega arith)

-- Encoding an operation within the bounds of the protocol puts its bytes at the start of the
-- output and returns their number when they fit, and else fails as oversized.
pub encode-operation_bytes :
    (o : Operation) (output : Bytes)
    → IsOperation o
    → encode_operation output o ≡ at_start (operation_bytes o) output
unfolding operation_bytes Encode.encode_environment Encode.encode_subscribe
    Encode.encode_subscribe_permanent Encode.encode_publish Encode.encode_response
    Encode.environment Encode.subscription Encode.permanent_subscription Encode.publication
    Encode.response
encode-operation_bytes (environment attributes) output (w, fresh, short) =
    finish-Writes _ _ output (
      Writes-ensure (leb (length attributes) max_attributes) oversized _ _ (le→leb _ _ short) (
        Writes-ensure (unique_after [] attributes) malformed _ _
          (unique_after-Fresh [] attributes fresh)
          (Writes-seq (Writer.u8 1) _ (1 ∷ []) _ (Writes-u8 1) (
            Writes-ensure (ltb (length attributes) (2 ^ 8)) oversized _ _
              (lt→ltb _ _ (omega (arith, short)))
              (Writes-seq (Writer.u8 (length attributes)) (Writer.attributes attributes)
                (length attributes ∷ []) (attributes_bytes attributes)
                (Writes-u8 (length attributes)) (Writes-attributes attributes w))))))
encode-operation_bytes (subscription type_id cs) output (_, (w, short)) = finish-Writes _ _ output (
    Writes-seq (Writer.u8 5) _ (5 ∷ []) _ (Writes-u8 5) (
      Writes-seq (Writer.u32 type_id) (Writer.predicate cs) (be_bytes 4 type_id) _
        (Writes-u32 type_id) (Writes-predicate cs w short)))
encode-operation_bytes (permanent_subscription type_id cs) output (_, (w, short)) =
    finish-Writes _ _ output (
      Writes-seq (Writer.u8 2) _ (2 ∷ []) _ (Writes-u8 2) (
        Writes-seq (Writer.u32 type_id) (Writer.predicate cs) (be_bytes 4 type_id) _
          (Writes-u32 type_id) (Writes-predicate cs w short)))
encode-operation_bytes (publication type_id cs value) output (_, (w, short), (room, _)) =
    finish-Writes _ _ output (
      Writes-ensure (leb (length value) max_value_bytes) oversized _ _ (le→leb _ _ room) (
        Writes-seq (Writer.u8 3) _ (3 ∷ []) _ (Writes-u8 3) (
          Writes-seq (Writer.u32 type_id) _ (be_bytes 4 type_id) _ (Writes-u32 type_id) (
            Writes-seq (Writer.predicate cs) (Writer.bytes_u16 value max_value_bytes) _ _
              (Writes-predicate cs w short) (Writes-payload value room)))))
encode-operation_bytes (response type_id publisher value) output (_, _, _, (room, _)) =
    finish-Writes _ _ output (
      Writes-ensure (leb (length value) max_value_bytes) oversized _ _ (le→leb _ _ room) (
        Writes-seq (Writer.u8 4) _ (4 ∷ []) _ (Writes-u8 4) (
          Writes-seq (Writer.u32 type_id) _ (be_bytes 4 type_id) _ (Writes-u32 type_id) (
            Writes-seq (Writer.raw publisher) (Writer.bytes_u16 value max_value_bytes) publisher _
              (Writes-raw publisher) (Writes-payload value room)))))

-- What an encode function wrote for an operation within the bounds of the protocol, taken to the
-- length that it returned, parses as the view of that operation.
pub parse-encode_operation :
    (o : Operation) (output output' : Bytes) (n : ℕ)
    → IsOperation o
    → encode_operation output o ≡ ok (output', n)
    → parse_operation (take n output') ≡ ok (view o)
parse-encode_operation o output output' n w e =
    let xs : Bytes = operation_bytes o in
    let whole = sym (encode-operation_bytes o output w) ∙ e in
    elim (Bool-cases (leb (length xs) (length output))) [
      | inl l ↦
          let same : ◌≡◌ {A = Bytes × ℕ} (xs ++ drop (length xs) output, length xs) (output', n) =
            ground arith in
          ap (λ r. parse_operation (take r.1 r.0)) (sym same)
          ∙ ap parse_operation (take-length_append (length xs) xs (drop (length xs) output) refl)
          ∙ parse-operation_bytes o w
      | inr l ↦ absurd (ground arith)
    ]
