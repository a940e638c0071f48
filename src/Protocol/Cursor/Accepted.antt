-- ===== src/Protocol/Cursor/Accepted.antt =====
-- Accepted values and conjunctions are the encodings of what was read.
use secure_pub_sub.Prelude.{
  ℕ, zero, suc, ◌≤◌, ◌≡◌, refl, sym, ap, ap₂, subst, ◌∙◌, Bool, true, false, List, [], ◌∷◌, ◌++◌,
  append_assoc, arith, leb, leb→le, nat_eq, nat_eq_iff, length, drop, slice, slice_of_drop, Bytes,
  AreBytes, be_bytes, be_value, be_bytes-be_value, be_value-lt, i64_value, i64_bits-i64_value,
  i64_value-IsI64, Result, ok, err, ok-injective,
}
use secure_pub_sub.Protocol.Types.{
  Operator, operator_byte, operator_from_u8, operator_byte-operator_from_u8, Error, malformed,
  oversized, max_attribute_bytes, max_clauses,
}
use secure_pub_sub.Protocol.Values.{
  ValueRef, ClauseRef, bool, i64, bytes, bool_byte, value_bytes, clause_bytes, clauses_bytes,
  IsValue,
}
use secure_pub_sub.Protocol.Cursor
use secure_pub_sub.Protocol.Cursor.{
  Cursor, Parser, PredicateRef, ◌>>=◌, ◌>>◌, pure, fail, require, bool_value, region, skip_clauses,
}
use secure_pub_sub.Protocol.Cursor.Reads.{AllClauses}
use secure_pub_sub.Protocol.Cursor.Parses.{
  Parses, Moved, Parses-pure, Parses-fail, Parses-weaken, Parses-if, Parses-require, Parses-bind,
  Parses-map, Parses-take, Parses-u8, Parses-u16, Parses-bytes_u16,
}

Parses-bool_value :
    (b : ℕ)
    → Parses (bool_value b) (λ v xs. (x : Bool) × (v ≡ bool x) × (b ≡ bool_byte x) × (xs ≡ []))
unfolding bool_value
Parses-bool_value b =
    Parses-if (nat_eq b 0) _ _ _
      (λ h.
        Parses-weaken (pure (bool false)) _ _ (λ v xs (e, n). (false, e, (nat_eq_iff b 0).0 h, n))
          (Parses-pure (bool false)))
      (λ _.
        Parses-if (nat_eq b 1) _ _ _
          (λ h.
            Parses-weaken (pure (bool true)) _ _ (λ v xs (e, n). (true, e, (nat_eq_iff b 1).0 h, n))
              (Parses-pure (bool true)))
          (λ _. Parses-fail malformed _))

abbrev pub Valued : ValueRef → Bytes → Type 0
Valued v xs = (xs ≡ value_bytes v) × IsValue v

Parses-bool : Parses (Cursor.u8 >>= bool_value) (λ v ys. Valued v (1 ∷ ys))
unfolding value_bytes
Parses-bool =
    Parses-weaken (Cursor.u8 >>= bool_value) _ _
      (λ v zs (b, xs, ys, (e, _), (x, k, byte, n), z).
        subst (λ u. Valued u (1 ∷ zs)) (sym k)
          (ap (◌∷◌ 1) (z ∙ ap₂ (λ u w. u ++ w) (e ∙ ap (λ t. t ∷ []) byte) n), tt))
      (Parses-bind Cursor.u8 bool_value _ _ Parses-u8 Parses-bool_value)

Parses-i64 :
    Parses (Cursor.take 8 >>= λ t. pure (i64 (i64_value (be_value t)))) (λ v ys. Valued v (2 ∷ ys))
unfolding value_bytes
Parses-i64 =
    Parses-map (Cursor.take 8) (λ t. i64 (i64_value (be_value t))) _ _ (Parses-take 8)
      (λ a xs (e, l, b).
        let small = be_value-lt 8 a b l in
        (
          ap (◌∷◌ 2) (
              e
              ∙ sym (be_bytes-be_value 8 a b l)
              ∙ ap (be_bytes 8) (sym (i64_bits-i64_value (be_value a) small))),
          i64_value-IsI64 (be_value a) small,
        ))

Parses-bytes :
    Parses
      (Cursor.bytes_u16 max_attribute_bytes >>= λ bs. pure (bytes bs))
      (λ v ys. Valued v (3 ∷ ys))
unfolding value_bytes
Parses-bytes =
    Parses-map (Cursor.bytes_u16 max_attribute_bytes) bytes _ _
      (Parses-bytes_u16 max_attribute_bytes) (λ bs xs (e, l, b). (ap (◌∷◌ 3) e, (l, b)))

-- The bytes of an accepted value are the encoding of the value.
pub Parses-value : Parses (Cursor.value max_attribute_bytes) Valued
unfolding Cursor.value
Parses-value =
    Parses-weaken (Cursor.value max_attribute_bytes) _ Valued
      (λ v zs (tag, xs, ys, (e, _), q, z). subst (Valued v) (sym (z ∙ ap (λ u. u ++ ys) e)) q)
      (Parses-bind Cursor.u8 _ _ (λ tag v ys. Valued v (tag ∷ ys)) Parses-u8
        (λ tag.
          Parses-if (nat_eq tag 1) _ _ _ (λ h. rw ((nat_eq_iff tag 1).0 h) Parses-bool)
            (λ _.
              Parses-if (nat_eq tag 2) _ _ _ (λ h. rw ((nat_eq_iff tag 2).0 h) Parses-i64)
                (λ _.
                  Parses-if (nat_eq tag 3) _ _ _ (λ h. rw ((nat_eq_iff tag 3).0 h) Parses-bytes)
                    (λ _. Parses-fail malformed _)))))

-- A region returns the bytes that its parser moves over.
pub Parses-region :
    {A : Type 0} (p : Parser A) (Q : A → Bytes → Type 0)
    → Parses p Q
    → Parses (region p) (λ taken xs. (taken ≡ xs) × (a : A) × Q a xs)
unfolding region
Parses-region {A} p Q r = record { run = λ c c' taken w t h. go c c' taken w t (p c) refl h }
  where
    go :
        (c c' : Cursor) (taken : Bytes)
        → c.position ≤ length c.input
        → AreBytes c.input
        → (res : Result Error (A × Cursor)) → p c ≡ res
        → ◌≡◌ {A = Result Error (Bytes × Cursor)}
            (elim res [ ok (a, d) ↦ ok (slice c.input c.position d.position, d) | err e ↦ err e ])
            (ok (taken, c'))
        → (xs : Bytes) × ((taken ≡ xs) × (a : A) × Q a xs) × Moved c c' xs
    go c c' taken w t (err x) e k = absurd (cc)
    go c c' taken w t (ok (a, d)) e k =
        let (xs, q, m) = r.run c d a w t e in
        let same = ok-injective k in
        (
          xs,
          (
            sym (ap (λ z. z.0) same)
                ∙ slice_of_drop c.input xs (drop d.position d.input) c.position d.position m.split
                    (sym (ap (λ z. z.position) m.moved)),
            a,
            q,
          ),
          subst (λ z. Moved c z xs) (ap (λ z. z.1) same) m,
        )

-- `n` clauses.
abbrev pub Clauses : ℕ → Bytes → Type 0
Clauses n xs = (cs : List ClauseRef) × AllClauses cs × (length cs ≡ n) × (xs ≡ clauses_bytes cs)

skipped_bytes :
    (id b : ℕ) (o : Operator) (v : ValueRef) (cs : List ClauseRef)
    {zs xs ys1 xs2 ys2 xs3 ys3 xs4 ys4 : Bytes}
    → xs ≡ be_bytes 2 id
    → xs2 ≡ b ∷ []
    → b ≡ operator_byte o
    → xs3 ≡ []
    → xs4 ≡ value_bytes v
    → ys4 ≡ clauses_bytes cs
    → ys3 ≡ xs4 ++ ys4
    → ys2 ≡ xs3 ++ ys3
    → ys1 ≡ xs2 ++ ys2
    → zs ≡ xs ++ ys1
    → zs ≡ (be_bytes 2 id ++ (operator_byte o ∷ value_bytes v)) ++ clauses_bytes cs
skipped_bytes id b o v cs {ys3} e1 e2 eb n3 e4 e5 z4 z3 z2 z1 =
    z1
    ∙ ap₂ (λ u w. u ++ w) e1
        (z2
          ∙ ap₂ (λ u w. u ++ w) (e2 ∙ ap (λ k. k ∷ []) eb)
              (z3 ∙ ap (λ u. u ++ ys3) n3 ∙ z4 ∙ ap₂ (λ u w. u ++ w) e4 e5))
    ∙ sym (append_assoc (be_bytes 2 id) (operator_byte o ∷ value_bytes v) (clauses_bytes cs))

pub Parses-skip_clauses : (n : ℕ) → Parses (skip_clauses n) (λ _ xs. Clauses n xs)
unfolding skip_clauses clauses_bytes clause_bytes
Parses-skip_clauses zero =
    Parses-weaken (pure tt) _ _ (λ _ xs (_, e). ([], tt, refl, e)) (Parses-pure tt)
Parses-skip_clauses (suc n) =
    Parses-weaken (skip_clauses (suc n)) _ _
      (λ _ zs
          (
            id,
            xs,
            ys1,
            (e1, small),
            (
              b,
              xs2,
              ys2,
              (e2, _),
              (o, xs3, ys3, (e3, n3), (v, xs4, ys4, (e4, valid), (cs, all_of, l, e5), z4), z3),
              z2,
            ),
            z1,
          ).
        (
          record { attribute = id; operator = o; value = v } ∷ cs,
          ((small, valid), all_of),
          ap suc l,
          skipped_bytes id b o v cs e1 e2 (operator_byte-operator_from_u8 b o e3) n3 e4 e5 z4 z3 z2
              z1,
        ))
      (Parses-bind Cursor.u16 _ _ _ Parses-u16 (λ id. Parses-bind Cursor.u8 _ _ _ Parses-u8 (λ b.
        Parses-bind (require (operator_from_u8 b) malformed) _ _ _
          (Parses-require (operator_from_u8 b) malformed)
          (λ o.
            Parses-bind (Cursor.value max_attribute_bytes) _ _ _ Parses-value
              (λ v. Parses-skip_clauses n)))))

-- The bytes of an accepted conjunction are the count and the encodings of its clauses.
abbrev pub Conjunction : PredicateRef → Bytes → Type 0
Conjunction r xs =
    (cs : List ClauseRef) × AllClauses cs
    × (length cs ≤ max_clauses)
    × (r ≡ record { encoded = clauses_bytes cs; count = length cs })
    × (xs ≡ length cs ∷ clauses_bytes cs)

pub Parses-predicate : Parses Cursor.predicate Conjunction
unfolding Cursor.predicate
Parses-predicate =
    Parses-weaken Cursor.predicate _ Conjunction
      (λ r zs (n, xs, ys, (e, _), (cs, all_of, short, l, r', e'), z).
        (cs, all_of, short, r', z ∙ ap₂ (λ u w. u ++ w) (e ∙ ap (λ k. k ∷ []) (sym l)) e'))
      (Parses-bind Cursor.u8 _ _
        (λ n r ys.
          (cs : List ClauseRef) × AllClauses cs
          × (length cs ≤ max_clauses)
          × (length cs ≡ n)
          × (r ≡ record { encoded = clauses_bytes cs; count = length cs })
          × (ys ≡ clauses_bytes cs))
        Parses-u8
        (λ n.
          Parses-if (leb n max_clauses) _ _ _
            (λ h.
              Parses-map (region (skip_clauses n)) (λ e. record { encoded = e; count = n }) _ _
                (Parses-region (skip_clauses n) _ (Parses-skip_clauses n))
                (λ taken xs (e, _, (cs, all_of, l, e')). (
                  cs,
                  all_of,
                  omega (arith, leb→le _ _ h, l),
                  l,
                  λ i. record { encoded = (e ∙ e') i; count = sym l i },
                  e',
                )))
            (λ _. Parses-fail oversized _)))
