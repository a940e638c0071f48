-- ===== src/Protocol/Operation/Canonical.antt =====
-- What an input that `parse_operation` accepts looks like: it is the encoding of an operation.
use secure_pub_sub.Prelude.{
  ℕ, ◌≡◌, refl, sym, ap, subst, ◌∙◌, [], ◌++◌, append-nil, arith, nat_eq, nat_eq_iff, length, drop,
  drop-length_le, Bool-cases, inl, inr, Bytes, AreBytes, Result, ok, err, ok-injective,
  if◌then◌else◌, ℕ-Eq,
}
use secure_pub_sub.Protocol.Types.{Error, malformed}
use secure_pub_sub.Protocol.Cursor
use secure_pub_sub.Protocol.Cursor.{Cursor, Parser, PredicateRef, ◌>>=◌, ◌>>◌, pure, fail}
use secure_pub_sub.Protocol.Cursor.Parses.{
  Parses, Parses-fail, Parses-weaken, Parses-bind, Parses-u8,
}
use secure_pub_sub.Protocol.Operation.{OperationRef, operation, parse_operation}
use secure_pub_sub.Protocol.Operation.Wire.{Operation, IsOperation, operation_bytes, view}
use secure_pub_sub.Protocol.Operation.Arms.{
  Accepts, Parses-environment, Parses-subscribe, Parses-permanent, Parses-publish, Parses-response,
  Parses-arm,
}

Parses-operation :
    Parses operation
      (λ r xs. (o : Operation) × IsOperation o × (r ≡ view o) × (xs ≡ operation_bytes o))
unfolding operation
Parses-operation =
    Parses-weaken operation _ _
      (λ r zs (code, xs, ys, (e, _), (o, w, v, e'), z). (o, w, v, z ∙ ap (λ u. u ++ ys) e ∙ e'))
      (Parses-bind Cursor.u8 _ _ Accepts Parses-u8 (λ code.
        Parses-arm code 1 _ _ Parses-environment (
          Parses-arm code 5 _ _ Parses-subscribe (
            Parses-arm code 2 _ _ Parses-permanent (
              Parses-arm code 3 _ _ Parses-publish
                (Parses-arm code 4 _ _ Parses-response (Parses-fail malformed _)))))))

consumed :
    (op r : OperationRef) (n m : ℕ)
    → ◌≡◌ {A = Result Error OperationRef} (if nat_eq n m then ok op else err malformed) (ok r)
    → (op ≡ r) × (n ≡ m)
consumed op r n m h = elim (Bool-cases (nat_eq n m)) [
  | inl e ↦
      let h' : ◌≡◌ {A = Result Error OperationRef} (ok op) (ok r) =
        subst (λ b. ◌≡◌ {A = Result Error OperationRef} (if b then ok op else err malformed) (ok r))
          e h in
      (ok-injective h', (nat_eq_iff n m).0 e)
  | inr e ↦
      let h' : ◌≡◌ {A = Result Error OperationRef} (err malformed) (ok r) =
        subst (λ b. ◌≡◌ {A = Result Error OperationRef} (if b then ok op else err malformed) (ok r))
          e h in
      absurd (cc)
]

-- The input encodes an operation within the bounds, of which this is the view.
abbrev pub IsEncoding : Bytes → OperationRef → Type 0
IsEncoding input r = (o : Operation) × IsOperation o × (input ≡ operation_bytes o) × (r ≡ view o)

-- Every input of bytes that the parser accepts is the encoding of an operation within the bounds of
-- the protocol, and the result is the view of that operation.
pub parse_operation-IsOperation :
    (input : Bytes) (r : OperationRef)
    → AreBytes input
    → parse_operation input ≡ ok r
    → IsEncoding input r
unfolding parse_operation
parse_operation-IsOperation input r b h = go (operation (Cursor.new input)) refl h
  where
    go :
        (res : Result Error (OperationRef × Cursor))
        → operation (Cursor.new input) ≡ res
        → ◌≡◌ {A = Result Error OperationRef}
            (elim res [
              | ok (op, c) ↦ if nat_eq c.position (length input) then ok op else err malformed
              | err e ↦ err e
            ])
            (ok r)
        → IsEncoding input r
    go (err x) e k = absurd (cc)
    go (ok (op, c)) e k =
        let (same, end) = consumed op r c.position (length input) k in
        let (xs, (o, w, v, e'), m) =
          Parses-operation.run (Cursor.new input) c op (omega arith) b e in
        let rest : drop c.position c.input ≡ [] =
          drop-length_le c.position c.input
            (omega (arith, end, ap (λ z. length z.input) m.moved)) in
        (o, w, m.split ∙ ap (λ u. xs ++ u) rest ∙ append-nil xs ∙ e', sym same ∙ v)
