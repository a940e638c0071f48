-- ===== src/Protocol/Writer/Payloads.antt =====
-- What the writer writes of values, environments and conjunctions within their bounds.
use secure_pub_sub.Prelude.{
  ◌≤◌, List, [], ◌∷◌, append_assoc, arith, leb, ltb, le→leb, lt→ltb, length, ◌^◌, be_bytes,
}
use secure_pub_sub.Protocol.Types.{oversized, max_attribute_bytes, max_clauses, operator_byte}
use secure_pub_sub.Protocol.Values.{
  ValueRef, AttributeRef, ClauseRef, bool, i64, bytes, IsValue, value_bytes, attribute_bytes,
  attributes_bytes, clause_bytes, clauses_bytes,
}
use secure_pub_sub.Protocol.Cursor.Reads.{AllClauses}
use secure_pub_sub.Protocol.Environment.Meaning.{AllAttributes}
use secure_pub_sub.Protocol.Writer
use secure_pub_sub.Protocol.Writer.{Writer, Writing, ◌>>◌, done, ensure}
use secure_pub_sub.Protocol.Writer.Writes.{
  Writes, Writes-raw, Writes-u8, Writes-u16, Writes-seq, Writes-ensure, Writes-done,
  Writes-bytes_u16,
}

pub Writes-value :
    (v : ValueRef) → IsValue v → Writes (Writer.value v max_attribute_bytes) (value_bytes v)
unfolding Writer.value value_bytes
Writes-value (bool b) h = Writes-seq (Writer.u8 1) _ (1 ∷ []) _ (Writes-u8 1) (Writes-u8 _)
Writes-value (i64 z) h = Writes-seq (Writer.u8 2) _ (2 ∷ []) _ (Writes-u8 2) (Writes-raw _)
Writes-value (bytes bs) h =
    Writes-seq (Writer.u8 3) _ (3 ∷ []) _ (Writes-u8 3)
      (Writes-bytes_u16 bs max_attribute_bytes h.0 (omega arith))

pub Writes-attributes :
    (attributes : List AttributeRef)
    → AllAttributes attributes
    → Writes (Writer.attributes attributes) (attributes_bytes attributes)
unfolding Writer.attributes attributes_bytes attribute_bytes
Writes-attributes [] w = Writes-done
Writes-attributes (a ∷ rest) w = rw append_assoc (
    Writes-seq (Writer.u16 a.id) _ (be_bytes 2 a.id) _ (Writes-u16 a.id) (
      Writes-seq (Writer.value a.value max_attribute_bytes) (Writer.attributes rest)
        (value_bytes a.value) (attributes_bytes rest) (Writes-value a.value w.0.1)
        (Writes-attributes rest w.1)))

pub Writes-clauses :
    (cs : List ClauseRef) → AllClauses cs → Writes (Writer.clauses cs) (clauses_bytes cs)
unfolding Writer.clauses clauses_bytes clause_bytes
Writes-clauses [] w = Writes-done
Writes-clauses (c ∷ rest) w = rw append_assoc (
    Writes-seq (Writer.u16 c.attribute) _ (be_bytes 2 c.attribute) _ (Writes-u16 c.attribute) (
      Writes-seq (Writer.u8 (operator_byte c.operator)) _ (operator_byte c.operator ∷ []) _
        (Writes-u8 (operator_byte c.operator))
        (Writes-seq (Writer.value c.value max_attribute_bytes) (Writer.clauses rest)
          (value_bytes c.value) (clauses_bytes rest) (Writes-value c.value w.0.1)
          (Writes-clauses rest w.1))))

pub Writes-predicate :
    (cs : List ClauseRef)
    → AllClauses cs
    → length cs ≤ max_clauses
    → Writes (Writer.predicate cs) (length cs ∷ clauses_bytes cs)
unfolding Writer.predicate
Writes-predicate cs w short =
    Writes-ensure (leb (length cs) max_clauses) oversized _ _ (le→leb _ _ short) (
      Writes-ensure (ltb (length cs) (2 ^ 8)) oversized _ _ (lt→ltb _ _ (omega (arith, short))) (
        Writes-seq (Writer.u8 (length cs)) (Writer.clauses cs) (length cs ∷ []) (clauses_bytes cs)
          (Writes-u8 (length cs)) (Writes-clauses cs w)))
