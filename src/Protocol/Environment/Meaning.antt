-- ===== src/Protocol/Environment/Meaning.antt =====
-- The views of encoded attributes and clauses mean what the lists behind the bytes mean.
use secure_pub_sub.Prelude.{
  ◌≡◌, ◌↔◌, true, sym, subst, inl, inr, Option-cases, refl, ap, ◌∙◌, Bool, false, List, [], ◌∷◌,
  ◌++◌, append_assoc, Option, none, some, arith, nat_eq, length, Bytes, be_bytes, ok, if◌then◌else◌,
}
use secure_pub_sub.Protocol.Types.{AttributeId, max_attribute_bytes}
use secure_pub_sub.Protocol.Values.{
  ValueRef, AttributeRef, ClauseRef, compare, value_bytes, attribute_bytes, attributes_bytes,
  clauses_bytes, IsAttribute,
}
use secure_pub_sub.Protocol.Values.Order.{Meets, compare_iff}
use secure_pub_sub.Protocol.Cursor
use secure_pub_sub.Protocol.Cursor.{Cursor, PredicateRef}
use secure_pub_sub.Protocol.Cursor.Reads.{At, advance, At-advance, Reads-u16, Reads-value}
use secure_pub_sub.Protocol.Environment.{EnvironmentRef, find, get, next, collect, entries}

abbrev pub AllAttributes : List AttributeRef → Type 0
AllAttributes [] = Unit {0}
AllAttributes (a ∷ rest) = IsAttribute a × AllAttributes rest

-- The view of a list of attributes, and of a list of clauses.
abbrev pub environment_of : List AttributeRef → EnvironmentRef
environment_of attributes = record {
  encoded = attributes_bytes attributes;
  count = length attributes;
}

abbrev pub predicate_of : List ClauseRef → PredicateRef
predicate_of clauses = record { encoded = clauses_bytes clauses; count = length clauses }

-- The value of the first attribute with the identifier.
unfoldable pub value_of : AttributeId → List AttributeRef → Option ValueRef
value_of wanted [] = none
value_of wanted (a ∷ rest) = if nat_eq a.id wanted then some a.value else value_of wanted rest

some-injective : {a b : ValueRef} → some a ≡ some b → a ≡ b
some-injective h = cc

-- The test of a clause, and what it says: the attribute is there, and its value stands in the
-- clause's relation to the clause's value.
unfoldable pub holds : List AttributeRef → ClauseRef → Bool
unfolding value_of
holds attributes c = elim (value_of c.attribute attributes) [
  | none ↦ false
  | some lhs ↦ compare lhs c.operator c.value
]

abbrev pub Holds : List AttributeRef → ClauseRef → Type 0
Holds attributes c =
    (lhs : ValueRef) × (value_of c.attribute attributes ≡ some lhs) × Meets c.operator lhs c.value

pub holds_iff :
    (attributes : List AttributeRef) (c : ClauseRef)
    → (holds attributes c ≡ true) ↔ Holds attributes c
unfolding holds
holds_iff attributes c = elim (Option-cases (value_of c.attribute attributes)) [
  | inl absent ↦ rw (holds, absent) (λ e. absurd (cc), λ (lhs, e, _). absurd (cc))
  | inr (v, found) ↦
      let meets = compare_iff v c.operator c.value in
      rw (holds, found)
        (
          λ e. (v, refl, meets.0 e),
          λ (lhs, e, k).
              meets.1 (subst (λ x. Meets c.operator x c.value) (some-injective (sym e)) k),
        )
]

module _ (a : AttributeRef) (w : IsAttribute a) (c : Cursor) (rest : Bytes)
    (h : At c (attribute_bytes a ++ rest)) where
  after_id : Cursor
  after_id = advance (length (be_bytes 2 a.id)) c

  at_id : At c (be_bytes 2 a.id ++ (value_bytes a.value ++ rest))
  unfolding attribute_bytes
  at_id = record {
    within = h.within;
    here = h.here ∙ append_assoc (be_bytes 2 a.id) (value_bytes a.value) rest;
  }

  at_value : At after_id (value_bytes a.value ++ rest)
  unfolding after_id
  at_value = At-advance c (be_bytes 2 a.id) (value_bytes a.value ++ rest) at_id

  after_value : Cursor
  after_value = advance (length (value_bytes a.value)) after_id

  read_id : Cursor.u16 c ≡ ok (a.id, after_id)
  unfolding after_id
  read_id = (Reads-u16 a.id w.0).run c (value_bytes a.value ++ rest) at_id

  read_value : Cursor.value max_attribute_bytes after_id ≡ ok (a.value, after_value)
  unfolding after_value
  read_value = (Reads-value a.value w.1).run after_id rest at_value

  at_rest : At after_value rest
  unfolding after_value
  at_rest = At-advance after_id (value_bytes a.value) rest at_value

find-attributes :
    (wanted : AttributeId) (attributes : List AttributeRef) (c : Cursor)
    → AllAttributes attributes
    → At c (attributes_bytes attributes)
    → find (length attributes) wanted c ≡ value_of wanted attributes
unfolding find value_of attributes_bytes
find-attributes wanted [] c w h = refl
find-attributes wanted (a ∷ rest) c w h =
    let r : Bytes = attributes_bytes rest in
    rw (read_id a w.0 c r h, find)
      (rw (read_value a w.0 c r h, find)
        (ground
          (arith, find-attributes wanted rest (after_value a w.0 c r h) w.1 (at_rest a w.0 c r h))))

abbrev pub start : (encoded : Bytes) → At (Cursor.new encoded) encoded
start encoded = record { within = omega arith; here = refl }

-- Reading an attribute from the encoded environment finds the first one with the identifier in the
-- list of attributes, or nothing where there is none.
pub get-environment_of :
    (wanted : AttributeId) (attributes : List AttributeRef)
    → AllAttributes attributes
    → get wanted (environment_of attributes) ≡ value_of wanted attributes
unfolding get
get-environment_of wanted attributes w =
    find-attributes wanted attributes (Cursor.new (attributes_bytes attributes)) w
      (start (attributes_bytes attributes))

collect-attributes :
    (attributes : List AttributeRef) (c : Cursor)
    → AllAttributes attributes
    → At c (attributes_bytes attributes)
    → collect (length attributes) (record { cursor = c; left = length attributes }) ≡ attributes
unfolding collect next attributes_bytes
collect-attributes [] c w h = refl
collect-attributes (a ∷ rest) c w h =
    let r : Bytes = attributes_bytes rest in
    rw (read_id a w.0 c r h, collect, next)
      (rw (read_value a w.0 c r h, collect, next)
        (ap (◌∷◌ a) (collect-attributes rest (after_value a w.0 c r h) w.1 (at_rest a w.0 c r h))))

-- Iterating over the encoded environment visits the attributes in their order.
pub entries-environment_of :
    (attributes : List AttributeRef)
    → AllAttributes attributes
    → entries (environment_of attributes) ≡ attributes
unfolding entries
entries-environment_of attributes w =
    collect-attributes attributes (Cursor.new (attributes_bytes attributes)) w
      (start (attributes_bytes attributes))
