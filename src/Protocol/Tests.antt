-- ===== src/Protocol/Tests.antt =====
-- Runs of the codec and of the operations at concrete inputs, after the tests of
-- implementations/rust/crates/protocol-core/src/lib.rs.
use secure_pub_sub.Prelude.{
  ◌↔◌, All, ℕ, zero, suc, ◌≡◌, refl, true, List, [], ◌∷◌, ◌++◌, arith, ltb, all, take, pos, Bytes,
  AreBytes, be_bytes, &&-eq-true, ltb→lt, ok, ℕ-Eq, List-Eq, drop, length,
}
use secure_pub_sub.Protocol.Types.{publish, ge, eq, ca_id, no_handler}
use secure_pub_sub.Protocol.Codec.{Header, header_then, encode_header, parse_envelope}
use secure_pub_sub.Protocol.Codec.RoundTrip.{IsHeader, envelope_of, parse-encode_header}
use secure_pub_sub.Protocol.Codec.Canonical.{IsCanonical, parse-IsCanonical}
use secure_pub_sub.Protocol.Values
use secure_pub_sub.Protocol.Values.{AttributeRef, ClauseRef, i64, bytes}
use secure_pub_sub.Protocol.Cursor.Reads.{AllClauses}
use secure_pub_sub.Protocol.Environment.{evaluate}
use secure_pub_sub.Protocol.Environment.Meaning.{AllAttributes, environment_of, predicate_of, Holds}
use secure_pub_sub.Protocol.Environment.Evaluation.{evaluate-Holds}
use secure_pub_sub.Protocol.Operation.{parse_operation}
use secure_pub_sub.Protocol.Operation.Wire.{
  Operation, publication, IsOperation, operation_bytes, view,
}
use secure_pub_sub.Protocol.Operation.RoundTrip.{parse-operation_bytes}
use secure_pub_sub.Protocol.Encode.RoundTrip.{
  encode_operation, at_start, encode-operation_bytes, parse-encode_operation,
}
use secure_pub_sub.Protocol.Operation.Canonical.{IsEncoding, parse_operation-IsOperation}

abbrev zeros : ℕ → Bytes
zeros zero = []
zeros (suc n) = 0 ∷ zeros n

-- A run of bytes, by a test.
are_bytes : (bs : Bytes) → all (λ b. ltb b 256) bs ≡ true → AreBytes bs
are_bytes [] h = tt
are_bytes (b ∷ bs) h = let (one, rest) = &&-eq-true _ _ h in (ltb→lt _ _ one, are_bytes bs rest)

abbrev agent : Bytes
agent = 1 ∷ 2 ∷ 3 ∷ 4 ∷ 5 ∷ 6 ∷ 7 ∷ 8 ∷ 9 ∷ 10 ∷ 11 ∷ 12 ∷ 13 ∷ 14 ∷ 15 ∷ 16 ∷ []

abbrev header : Header
header = record {
  message_type = publish;
  sender = agent;
  recipient = ca_id;
  handler = no_handler;
  session_id = agent;
  ephemeral_public = zeros 32;
  salt = agent ++ agent;
}

header-IsHeader : IsHeader header
header-IsHeader = record {
  sender = refl;
  recipient = refl;
  handler = refl;
  session_id = refl;
  ephemeral_public = refl;
  salt = refl;
}

-- An output of zeros after a header for two bytes of ciphertext.
abbrev frame : Bytes
frame = header_then header 230 2 (zeros 82)

encode_frame : encode_header (zeros 230) header 2 ≡ ok (frame, 230)
unfolding encode_header
encode_frame = refl

parse-encode_header_example :
    parse_envelope (take 230 frame) ≡ ok (envelope_of header 2 (take 230 frame))
parse-encode_header_example =
    parse-encode_header (zeros 230) frame header 2 230 header-IsHeader encode_frame (omega arith)

taken-AreBytes : AreBytes (take 230 frame)
unfolding be_bytes
taken-AreBytes = are_bytes (take 230 frame) refl

parse-IsCanonical_example : IsCanonical (take 230 frame) (envelope_of header 2 (take 230 frame))
parse-IsCanonical_example =
    parse-IsCanonical (take 230 frame) (envelope_of header 2 (take 230 frame)) taken-AreBytes
      parse-encode_header_example

abbrev battery : List AttributeRef
battery =
    record { id = 7; value = i64 (pos 40) }
    ∷ record { id = 9; value = bytes (b'r' ∷ b'1' ∷ []) }
    ∷ []

battery-AllAttributes : AllAttributes battery
battery-AllAttributes = (
  (omega arith, omega arith),
  ((omega arith, (omega arith, are_bytes (b'r' ∷ b'1' ∷ []) refl)), tt),
)

abbrev at_least : List ClauseRef
at_least =
    record { attribute = 7; operator = ge; value = i64 (pos 20) }
    ∷ record { attribute = 9; operator = eq; value = bytes (b'r' ∷ b'1' ∷ []) }
    ∷ []

at_least-AllClauses : AllClauses at_least
at_least-AllClauses = (
  (omega arith, omega arith),
  ((omega arith, (omega arith, are_bytes (b'r' ∷ b'1' ∷ []) refl)), tt),
)

evaluate-Holds_example :
    (evaluate (predicate_of at_least) (environment_of battery) ≡ true)
    ↔ All (Holds battery) at_least
evaluate-Holds_example = evaluate-Holds battery battery-AllAttributes at_least at_least-AllClauses

abbrev publishing : Operation
publishing = publication 42 at_least (1 ∷ 2 ∷ 3 ∷ [])

publishing-IsOperation : IsOperation publishing
publishing-IsOperation = (
  omega arith,
  (at_least-AllClauses, omega arith),
  (omega arith, are_bytes (1 ∷ 2 ∷ 3 ∷ []) refl),
)

publishing-AreBytes : AreBytes (operation_bytes publishing)
unfolding operation_bytes be_bytes Values.value_bytes Values.attribute_bytes Values.clause_bytes
    Values.clauses_bytes
publishing-AreBytes = are_bytes (operation_bytes publishing) refl

parse_operation-IsOperation_example : IsEncoding (operation_bytes publishing) (view publishing)
parse_operation-IsOperation_example =
    parse_operation-IsOperation (operation_bytes publishing) (view publishing) publishing-AreBytes
      (parse-operation_bytes publishing publishing-IsOperation)

encode-operation_bytes_example :
    encode_operation (zeros 64) publishing ≡ at_start (operation_bytes publishing) (zeros 64)
encode-operation_bytes_example = encode-operation_bytes publishing (zeros 64) publishing-IsOperation

-- The publication with its length, before the rest of the zeros.
abbrev published : Bytes
published = operation_bytes publishing ++ drop (length (operation_bytes publishing)) (zeros 64)

encode_publishing :
    encode_operation (zeros 64) publishing ≡ ok (published, length (operation_bytes publishing))
unfolding operation_bytes be_bytes Values.value_bytes Values.attribute_bytes Values.clause_bytes
    Values.clauses_bytes
encode_publishing = encode-operation_bytes publishing (zeros 64) publishing-IsOperation

parse-encode_operation_example :
    parse_operation (take (length (operation_bytes publishing)) published) ≡ ok (view publishing)
parse-encode_operation_example =
    parse-encode_operation publishing (zeros 64) published (length (operation_bytes publishing))
      publishing-IsOperation encode_publishing
