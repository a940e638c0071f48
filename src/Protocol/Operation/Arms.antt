-- ===== src/Protocol/Operation/Arms.antt =====
-- What the arms of `parse_operation` accept.
use secure_pub_sub.Prelude.{
  ℕ, ◌^◌, ◌≤◌, ◌<◌, ◌≡◌, refl, sym, ap, ap₂, subst, ◌∙◌, List, [], ◌∷◌, ◌++◌, arith, leb, leb→le,
  nat_eq, nat_eq_iff, length, Bytes, be_bytes, if◌then◌else◌, ℕ-Eq,
}
use secure_pub_sub.Protocol.Types.{oversized, max_attributes, max_value_bytes}
use secure_pub_sub.Protocol.Values.{AttributeRef, attributes_bytes}
use secure_pub_sub.Protocol.Cursor
use secure_pub_sub.Protocol.Cursor.{Cursor, Parser, PredicateRef, ◌>>=◌, ◌>>◌, pure, fail}
use secure_pub_sub.Protocol.Cursor.Parses.{
  Parses, Parses-fail, Parses-weaken, Parses-if, Parses-bind, Parses-map, Parses-take, Parses-u8,
  Parses-u32, Parses-bytes_u16,
}
use secure_pub_sub.Protocol.Cursor.Accepted.{Parses-region, Conjunction, Parses-predicate}
use secure_pub_sub.Protocol.Environment.Meaning.{AllAttributes, environment_of}
use secure_pub_sub.Protocol.Operation.{
  OperationRef, set_environment, subscribe, subscribe_permanent, publish, publication_response,
  skip_attributes, environment_operation, subscribe_operation, permanent_operation,
  publish_operation, response_operation,
}
use secure_pub_sub.Protocol.Operation.Wire.{
  Operation, environment, subscription, permanent_subscription, publication, response, Fresh,
  IsPayload, IsOperation, payload_bytes, operation_bytes, view,
}
use secure_pub_sub.Protocol.Operation.Attributes.{Parses-skip_attributes}

-- The parser returns the view of an operation within the bounds, and moves over its bytes without
-- the code.
abbrev pub Accepts : ℕ → OperationRef → Bytes → Type 0
Accepts code r xs = (o : Operation) × IsOperation o × (r ≡ view o) × (code ∷ xs ≡ operation_bytes o)

pub Parses-environment : Parses environment_operation (Accepts 1)
unfolding environment_operation view operation_bytes
Parses-environment =
    Parses-weaken environment_operation _ _
      (λ r zs (n, xs, ys, (e, _), (short, attributes, all_of, fresh, l, r', e'), z). (
        environment attributes,
        (all_of, fresh, omega (arith, l, short)),
        r',
        ap (◌∷◌ 1) (z ∙ ap₂ (λ u w. u ++ w) (e ∙ ap (λ k. k ∷ []) (sym l)) e'),
      ))
      (Parses-bind Cursor.u8 _ _
        (λ n r ys.
          (n ≤ max_attributes)
          × (attributes : List AttributeRef) × AllAttributes attributes
          × Fresh [] attributes
          × (length attributes ≡ n)
          × (r ≡ set_environment (environment_of attributes))
          × (ys ≡ attributes_bytes attributes))
        Parses-u8
        (λ n.
          Parses-if (leb n max_attributes) _ _ _
            (λ h.
              Parses-map (Cursor.region (skip_attributes n []))
                (λ e. set_environment (record { encoded = e; count = n })) _ _
                (Parses-region (skip_attributes n []) _ (Parses-skip_attributes n []))
                (λ taken xs (e, _, (attributes, all_of, fresh, l, e')). (
                  leb→le _ _ h,
                  attributes,
                  all_of,
                  fresh,
                  l,
                  λ i. set_environment (record { encoded = (e ∙ e') i; count = sym l i }),
                  e',
                )))
            (λ _. Parses-fail oversized _)))

-- The type identifier, and what follows it.
Parses-typed :
    (p : ℕ → Parser OperationRef) (code : ℕ) (Q : ℕ → OperationRef → Bytes → Type 0)
    → ((t : ℕ) → Parses (p t) (Q t))
    → ((t : ℕ) (r : OperationRef) (ys : Bytes)
        → t < 2 ^ 32
        → Q t r ys
        → Accepts code r (be_bytes 4 t ++ ys))
    → Parses (Cursor.u32 >>= p) (Accepts code)
Parses-typed p code Q parses f =
    Parses-weaken (Cursor.u32 >>= p) _ _
      (λ r zs (t, xs, ys, (e, small), q, z).
        subst (Accepts code r) (sym (z ∙ ap (λ u. u ++ ys) e)) (f t r ys small q))
      (Parses-bind Cursor.u32 p _ Q Parses-u32 parses)

pub Parses-subscribe : Parses subscribe_operation (Accepts 5)
unfolding subscribe_operation view operation_bytes
Parses-subscribe =
    Parses-typed _ 5 _
      (λ t.
        Parses-map Cursor.predicate (subscribe t) Conjunction
          (λ r ys. (q : PredicateRef) × (r ≡ subscribe t q) × Conjunction q ys) Parses-predicate
          (λ q ys c. (q, refl, c)))
      (λ t r ys small (q, r', (cs, all_of, short, q', e)). (
        subscription t cs,
        (small, (all_of, short)),
        r' ∙ ap (subscribe t) q',
        ap (λ u. 5 ∷ (be_bytes 4 t ++ u)) e,
      ))

pub Parses-permanent : Parses permanent_operation (Accepts 2)
unfolding permanent_operation view operation_bytes
Parses-permanent =
    Parses-typed _ 2 _
      (λ t.
        Parses-map Cursor.predicate (subscribe_permanent t) Conjunction
          (λ r ys. (q : PredicateRef) × (r ≡ subscribe_permanent t q) × Conjunction q ys)
          Parses-predicate (λ q ys c. (q, refl, c)))
      (λ t r ys small (q, r', (cs, all_of, short, q', e)). (
        permanent_subscription t cs,
        (small, (all_of, short)),
        r' ∙ ap (subscribe_permanent t) q',
        ap (λ u. 2 ∷ (be_bytes 4 t ++ u)) e,
      ))

-- A payload with its length.
abbrev Payload : Bytes → Bytes → Type 0
Payload value ys = (ys ≡ payload_bytes value) × IsPayload value

Parses-Payload :
    (g : Bytes → OperationRef)
    → Parses
        (Cursor.bytes_u16 max_value_bytes >>= λ value. pure (g value))
        (λ r ys. (value : Bytes) × (r ≡ g value) × Payload value ys)
Parses-Payload g =
    Parses-map (Cursor.bytes_u16 max_value_bytes) g _ _ (Parses-bytes_u16 max_value_bytes)
      (λ value ys (e, short, b). (value, refl, (e, (short, b))))

pub Parses-publish : Parses publish_operation (Accepts 3)
unfolding publish_operation view operation_bytes
Parses-publish =
    Parses-typed _ 3 _
      (λ t.
        Parses-bind Cursor.predicate _ Conjunction
          (λ q r ys. (value : Bytes) × (r ≡ publish t q value) × Payload value ys) Parses-predicate
          (λ q. Parses-Payload (publish t q)))
      (λ t r zs small (q, xs, ys, (cs, all_of, short, q', e), (value, r', (e', valid)), z). (
        publication t cs value,
        (small, (all_of, short), valid),
        r' ∙ ap (λ p. publish t p value) q',
        ap (λ u. 3 ∷ (be_bytes 4 t ++ u)) (z ∙ ap₂ (λ u w. u ++ w) e e'),
      ))

pub Parses-response : Parses response_operation (Accepts 4)
unfolding response_operation view operation_bytes
Parses-response =
    Parses-typed _ 4 _
      (λ t.
        Parses-bind (Cursor.take 16) _ _
          (λ publisher r ys.
            (value : Bytes) × (r ≡ publication_response t publisher value) × Payload value ys)
          (Parses-take 16) (λ publisher. Parses-Payload (publication_response t publisher)))
      (λ t r zs small (publisher, xs, ys, (e, wide, b), (value, r', (e', valid)), z). (
        response t publisher value,
        (small, wide, b, valid),
        r',
        ap (λ u. 4 ∷ (be_bytes 4 t ++ u)) (z ∙ ap₂ (λ u w. u ++ w) e e'),
      ))

-- One arm of the match on the operation code.
pub Parses-arm :
    (code k : ℕ) (p q : Parser OperationRef)
    → Parses p (Accepts k)
    → Parses q (Accepts code)
    → Parses (if nat_eq code k then p else q) (Accepts code)
Parses-arm code k p q r s =
    Parses-if (nat_eq code k) p q (Accepts code)
      (λ h. subst (λ n. Parses p (Accepts n)) (sym ((nat_eq_iff code k).0 h)) r) (λ _. s)
