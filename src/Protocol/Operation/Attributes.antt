-- ===== src/Protocol/Operation/Attributes.antt =====
-- The attributes that `parse_operation` skips over.
use secure_pub_sub.Prelude.{
  ℕ, zero, suc, ◌≡◌, refl, sym, ap, ap₂, ◌∙◌, false, List, [], ◌∷◌, ◌++◌, append_assoc, length,
  Bytes, be_bytes, ℕ-Eq,
}
use secure_pub_sub.Prelude.Keys.{mem}
use secure_pub_sub.Protocol.Types.{malformed, max_attribute_bytes}
use secure_pub_sub.Protocol.Values.{
  ValueRef, AttributeRef, value_bytes, attribute_bytes, attributes_bytes,
}
use secure_pub_sub.Protocol.Cursor
use secure_pub_sub.Protocol.Cursor.{Cursor, Parser, PredicateRef, ◌>>=◌, ◌>>◌, pure, fail}
use secure_pub_sub.Protocol.Cursor.Parses.{
  Parses, Parses-pure, Parses-fail, Parses-weaken, Parses-if, Parses-bind, Parses-u16,
}
use secure_pub_sub.Protocol.Cursor.Accepted.{Valued, Parses-value}
use secure_pub_sub.Protocol.Environment.Meaning.{AllAttributes}
use secure_pub_sub.Protocol.Operation.{skip_attributes}
use secure_pub_sub.Protocol.Operation.Wire.{Fresh}

-- `n` attributes with identifiers of their own.
abbrev pub Skipped : ℕ → List ℕ → Bytes → Type 0
Skipped n seen xs =
    (attributes : List AttributeRef) × AllAttributes attributes
    × Fresh seen attributes
    × (length attributes ≡ n)
    × (xs ≡ attributes_bytes attributes)

pub Parses-skip_attributes :
    (n : ℕ) (seen : List ℕ) → Parses (skip_attributes n seen) (λ _ xs. Skipped n seen xs)
unfolding skip_attributes attributes_bytes attribute_bytes
Parses-skip_attributes zero seen =
    Parses-weaken (pure tt) _ _ (λ _ xs (_, e). ([], tt, tt, refl, e)) (Parses-pure tt)
Parses-skip_attributes (suc n) seen =
    Parses-weaken (skip_attributes (suc n) seen) _ _
      (λ _ zs
          (
            id,
            xs,
            ys,
            (e, small),
            (new, v, us, ws, (e1, valid), (rest, all_of, fresh, l, e2), z1),
            z,
          ).
        (
          record { id = id; value = v } ∷ rest,
          ((small, valid), all_of),
          (new, fresh),
          ap suc l,
          z
              ∙ ap₂ (λ a b. a ++ b) e (z1 ∙ ap₂ (λ a b. a ++ b) e1 e2)
              ∙ sym (append_assoc (be_bytes 2 id) (value_bytes v) (attributes_bytes rest)),
        ))
      (Parses-bind Cursor.u16 _ _
        (λ id _ ys.
          (mem id seen ≡ false)
          × (v : ValueRef) × (us : Bytes) × (ws : Bytes) × Valued v us
          × Skipped n (seen ++ id ∷ []) ws
          × (ys ≡ us ++ ws))
        Parses-u16
        (λ id.
          Parses-if (mem id seen) (fail malformed) _ _ (λ _. Parses-fail malformed _)
            (λ new.
              Parses-weaken
                (Cursor.value max_attribute_bytes >> skip_attributes n (seen ++ id ∷ [])) _ _
                (λ _ ys (v, us, ws, e, skipped, z). (new, v, us, ws, e, skipped, z))
                (Parses-bind (Cursor.value max_attribute_bytes) _ _
                  (λ _ _ ws. Skipped n (seen ++ id ∷ []) ws) Parses-value
                  (λ v. Parses-skip_attributes n (seen ++ id ∷ []))))))
