-- ===== src/Protocol/Environment.antt =====
-- `EnvironmentRef` and `PredicateRef` of implementations/rust/crates/protocol-core/src/payload.rs:
-- zero-copy views that read their attributes and clauses from the validated bytes at each use.
pub mod Meaning
pub mod Evaluation
use secure_pub_sub.Prelude.{
  ℕ, zero, suc, Bool, true, false, List, [], ◌∷◌, Option, none, some, nat_eq, Bytes, Result, ok,
  err, if◌then◌else◌, not,
}
use secure_pub_sub.Protocol.Types.{AttributeId, operator_from_u8, max_attribute_bytes}
use secure_pub_sub.Protocol.Values.{ValueRef, AttributeRef, compare}
use secure_pub_sub.Protocol.Cursor
use secure_pub_sub.Protocol.Cursor.{Cursor, PredicateRef}

pub record EnvironmentRef : Type 0 where
  pub encoded : Bytes
  pub count : ℕ

-- `EnvironmentRef::len` and `is_empty`.
unfoldable pub len : EnvironmentRef → ℕ
len e = e.count

unfoldable pub is_empty : EnvironmentRef → Bool
is_empty e = nat_eq e.count 0

-- The rounds of `EnvironmentRef::get`; an error of the cursor ends the search.
unfoldable pub find : ℕ → AttributeId → Cursor → Option ValueRef
find zero wanted c = none
find (suc n) wanted c = elim (Cursor.u16 c) [
  | err e ↦ none
  | ok (id, c') ↦ elim (Cursor.value max_attribute_bytes c') [
    | err e ↦ none
    | ok (v, c'') ↦ elim (nat_eq id wanted) [ true ↦ some v | false ↦ find n wanted c'' ]
  ]
]

unfoldable pub get : AttributeId → EnvironmentRef → Option ValueRef
unfolding find
get wanted e = find e.count wanted (Cursor.new e.encoded)

-- `EnvironmentIter`.
pub record EnvironmentIter : Type 0 where
  pub cursor : Cursor
  pub left : ℕ

unfoldable pub iter : EnvironmentRef → EnvironmentIter
iter e = record { cursor = Cursor.new e.encoded; left = e.count }

-- `next`; where it returns `None` after a failed read, no caller asks again.
unfoldable pub next : EnvironmentIter → Option (AttributeRef × EnvironmentIter)
next it = elim it.left [
  | zero ↦ none
  | suc left ↦ elim (Cursor.u16 it.cursor) [
    | err e ↦ none
    | ok (id, c') ↦ elim (Cursor.value max_attribute_bytes c') [
      | err e ↦ none
      | ok (v, c'') ↦ some (record { id = id; value = v }, record { cursor = c''; left = left })
    ]
  ]
]

-- What a `for` loop over the iterator visits; each item takes one from `left`.
unfoldable pub collect : ℕ → EnvironmentIter → List AttributeRef
collect zero it = []
collect (suc n) it = elim (next it) [ none ↦ [] | some (a, rest) ↦ a ∷ collect n rest ]

unfoldable pub entries : EnvironmentRef → List AttributeRef
unfolding iter next collect
entries e = collect e.count (iter e)

-- The rounds of `PredicateRef::evaluate`.
unfoldable pub check : ℕ → EnvironmentRef → Cursor → Bool
check zero environment c = true
check (suc n) environment c = elim (Cursor.u16 c) [
  | err e ↦ false
  | ok (attribute, c1) ↦ elim (Cursor.u8 c1) [
    | err e ↦ false
    | ok (b, c2) ↦ elim (operator_from_u8 b) [
      | none ↦ false
      | some operator ↦ elim (Cursor.value max_attribute_bytes c2) [
        | err e ↦ false
        | ok (rhs, c3) ↦ elim (get attribute environment) [
          | none ↦ false
          | some lhs ↦ elim (compare lhs operator rhs) [
            | false ↦ false
            | true ↦ check n environment c3
          ]
        ]
      ]
    ]
  ]
]

unfoldable pub evaluate : PredicateRef → EnvironmentRef → Bool
unfolding check
evaluate p environment = check p.count environment (Cursor.new p.encoded)
