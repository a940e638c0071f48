-- ===== src/Protocol/Environment/Evaluation.antt =====
-- `PredicateRef::evaluate` over encoded clauses and attributes.
use secure_pub_sub.Prelude.{
  ◌≡◌, ◌↔◌, true, All, all-All, sym, refl, ◌∙◌, List, [], ◌∷◌, ◌++◌, append_assoc, arith, all,
  length, Bytes, be_bytes, ok,
}
use secure_pub_sub.Protocol.Types.{
  operator_byte, operator_from_u8-operator_byte, max_attribute_bytes,
}
use secure_pub_sub.Protocol.Values.{
  AttributeRef, ClauseRef, value_bytes, clause_bytes, clauses_bytes, IsClause,
}
use secure_pub_sub.Protocol.Cursor
use secure_pub_sub.Protocol.Cursor.{Cursor}
use secure_pub_sub.Protocol.Cursor.Reads.{
  At, advance, At-advance, Reads-u16, Reads-u8, Reads-value, AllClauses,
}
use secure_pub_sub.Protocol.Environment.{check, evaluate}
use secure_pub_sub.Protocol.Environment.Meaning.{
  AllAttributes, environment_of, predicate_of, holds, Holds, holds_iff, get-environment_of, start,
}

module _ (k : ClauseRef) (w : IsClause k) (c : Cursor) (rest : Bytes)
    (h : At c (clause_bytes k ++ rest)) where
  abbrev operand : Bytes
  operand = value_bytes k.value

  after_attribute : Cursor
  after_attribute = advance (length (be_bytes 2 k.attribute)) c

  at_attribute : At c (be_bytes 2 k.attribute ++ (operator_byte k.operator ∷ (operand ++ rest)))
  unfolding clause_bytes
  at_attribute = record {
    within = h.within;
    here = h.here ∙ append_assoc (be_bytes 2 k.attribute) (operator_byte k.operator ∷ operand) rest;
  }

  at_operator : At after_attribute (operator_byte k.operator ∷ (operand ++ rest))
  unfolding after_attribute
  at_operator =
      At-advance c (be_bytes 2 k.attribute) (operator_byte k.operator ∷ (operand ++ rest))
        at_attribute

  after_operator : Cursor
  after_operator = advance 1 after_attribute

  at_operand : At after_operator (operand ++ rest)
  unfolding after_operator
  at_operand =
      At-advance after_attribute (operator_byte k.operator ∷ []) (operand ++ rest) at_operator

  after_operand : Cursor
  after_operand = advance (length operand) after_operator

  read_attribute : Cursor.u16 c ≡ ok (k.attribute, after_attribute)
  unfolding after_attribute
  read_attribute =
      (Reads-u16 k.attribute w.0).run c (operator_byte k.operator ∷ (operand ++ rest)) at_attribute

  read_operator : Cursor.u8 after_attribute ≡ ok (operator_byte k.operator, after_operator)
  unfolding after_operator
  read_operator =
      (Reads-u8 (operator_byte k.operator)).run after_attribute (operand ++ rest) at_operator

  read_operand : Cursor.value max_attribute_bytes after_operator ≡ ok (k.value, after_operand)
  unfolding after_operand
  read_operand = (Reads-value k.value w.1).run after_operator rest at_operand

  at_next : At after_operand rest
  unfolding after_operand
  at_next = At-advance after_operator operand rest at_operand

module _ (attributes : List AttributeRef) (w : AllAttributes attributes) where
  check-clauses :
      (clauses : List ClauseRef) (c : Cursor)
      → AllClauses clauses
      → At c (clauses_bytes clauses)
      → check (length clauses) (environment_of attributes) c ≡ all (holds attributes) clauses
  unfolding check clauses_bytes holds
  check-clauses [] c v h = refl
  check-clauses (k ∷ rest) c v h =
      let r : Bytes = clauses_bytes rest in
      let ih = check-clauses rest (after_operand k v.0 c r h) v.1 (at_next k v.0 c r h) in
      rw (read_attribute k v.0 c r h, check)
        (rw (read_operator k v.0 c r h, check)
          (rw (operator_from_u8-operator_byte k.operator, check)
            (rw (read_operand k v.0 c r h, check)
              (rw (get-environment_of k.attribute attributes w, check) (ground (arith, ih))))))

  -- For attributes and clauses within the bounds of the protocol, evaluating the encoded
  -- conjunction against the encoded environment succeeds exactly when every clause holds of the
  -- attributes: the first attribute with the clause's identifier is there, and its value and the
  -- clause's are of one type and stand in the relation of the clause's operator, in the order of
  -- Booleans, of integers or of byte strings.
  pub evaluate-Holds :
      (clauses : List ClauseRef)
      → AllClauses clauses
      → (evaluate (predicate_of clauses) (environment_of attributes) ≡ true)
        ↔ All (Holds attributes) clauses
  unfolding evaluate
  evaluate-Holds clauses v =
      let run =
        check-clauses clauses (Cursor.new (clauses_bytes clauses)) v
          (start (clauses_bytes clauses)) in
      let every = all-All (holds attributes) (Holds attributes) clauses (holds_iff attributes) in
      (λ e. every.0 (sym run ∙ e), λ h. run ∙ every.1 h)
