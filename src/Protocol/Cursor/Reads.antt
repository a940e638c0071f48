-- ===== src/Protocol/Cursor/Reads.antt =====
-- What a parser reads: rules by which the wire format is read back.
use secure_pub_sub.Prelude.{
  ℕ, ◌+◌, ◌^◌, ◌≤◌, ◌<◌, ◌≡◌, refl, ap, ◌∙◌, Bool, true, false, List, [], ◌∷◌, ◌++◌, append_assoc,
  Option, some, arith, leb, le→leb, length, length-append, length-drop, slice_of_drop, drop_of_drop,
  drop, Bytes, be_bytes, be_value, length-be_bytes, be_value-be_bytes, i64_value, i64_bits,
  i64_value-i64_bits, i64_bits-lt, ok, if◌then◌else◌,
}
use secure_pub_sub.Protocol.Types.{
  operator_byte, operator_from_u8, operator_from_u8-operator_byte, Error, malformed,
  max_attribute_bytes, max_clauses,
}
use secure_pub_sub.Protocol.Values.{
  ValueRef, ClauseRef, bool, i64, bytes, bool_byte, value_bytes, clause_bytes, clauses_bytes,
  IsValue, IsClause,
}
use secure_pub_sub.Protocol.Cursor
use secure_pub_sub.Protocol.Cursor.{
  Cursor, Parser, PredicateRef, ◌>>=◌, ◌>>◌, pure, require, bool_value, region, skip_clauses,
}

-- What stands ahead of the cursor.
pub record At (c : Cursor) (ahead : Bytes) : Type 0 where
  pub within : c.position ≤ length c.input
  pub here : drop c.position c.input ≡ ahead

abbrev pub advance : ℕ → Cursor → Cursor
advance n c = record c { position = c.position + n }

-- The parser moves over `xs`, whatever follows, and returns `a`.
pub record Reads {A : Type 0} (p : Parser A) (xs : Bytes) (a : A) : Type 0 where
  pub run : (c : Cursor) (rest : Bytes) → At c (xs ++ rest) → p c ≡ ok (a, advance (length xs) c)

pub At-advance :
    (c : Cursor) (xs rest : Bytes) → At c (xs ++ rest) → At (advance (length xs) c) rest
At-advance c xs rest h = record {
  within =
      omega
        (arith, h.within, ap length h.here, length-append xs rest, length-drop c.position c.input);
  here = drop_of_drop c.input xs rest c.position (c.position + length xs) h.here refl;
}

module _ {A : Type 0} where
  pub Reads-pure : (a : A) → Reads (pure a) [] a
  Reads-pure a = record {
    run = λ c rest h.
        ap (λ n. ok (a, record c { position = n })) {x = c.position} {y = c.position + 0}
          (omega arith);
  }

  pub Reads-if_true :
      (b : Bool) (p q : Parser A) (xs : Bytes) {a : A}
      → b ≡ true
      → Reads p xs a
      → Reads (if b then p else q) xs a
  Reads-if_true b p q xs e r = rw e r

  pub Reads-if_false :
      (b : Bool) (p q : Parser A) (xs : Bytes) {a : A}
      → b ≡ false
      → Reads q xs a
      → Reads (if b then p else q) xs a
  Reads-if_false b p q xs e r = rw e r

  pub Reads-require : (o : Option A) (e : Error) (a : A) → o ≡ some a → Reads (require o e) [] a
  Reads-require o e a h = rw h (Reads-pure a)

pub bind-eq :
    {A B : Type 0} (p : Parser A) (f : A → Parser B) (c : Cursor) {a : A} {c' : Cursor}
    → p c ≡ ok (a, c')
    → (p >>= f) c ≡ f a c'
bind-eq p f c e = rw (e, ◌>>=◌)

pub Reads-bind :
    {A B : Type 0} (p : Parser A) (f : A → Parser B) (xs ys : Bytes) {a : A} {b : B}
    → Reads p xs a
    → Reads (f a) ys b
    → Reads (p >>= f) (xs ++ ys) b
Reads-bind p f xs ys {a} {b} r s = record {
  run = λ c rest h.
      let h' : At c (xs ++ (ys ++ rest)) = record {
        within = h.within;
        here = h.here ∙ append_assoc xs ys rest;
      } in
      bind-eq p f c (r.run c (ys ++ rest) h')
      ∙ s.run (advance (length xs) c) rest (At-advance c xs (ys ++ rest) h')
      ∙ ap (λ n. ok (b, record c { position = n })) {x = c.position + length xs + length ys}
          {y = c.position + length (xs ++ ys)} (omega (arith, length-append xs ys));
}

pub Reads-take : (n : ℕ) (xs : Bytes) → length xs ≡ n → Reads (Cursor.take n) xs xs
unfolding Cursor.take
Reads-take n xs e = record {
  run = λ c rest h.
      let fits : c.position + n ≤ length c.input = omega (
        arith,
        h.within,
        ap length h.here,
        length-append xs rest,
        length-drop c.position c.input,
      ) in
      rw (le→leb _ _ fits)
        (cc (slice_of_drop c.input xs rest c.position (c.position + n) h.here (omega arith), e));
}

pub Reads-u8 : (b : ℕ) → Reads Cursor.u8 (b ∷ []) b
unfolding Cursor.u8
Reads-u8 b = Reads-bind (Cursor.take 1) _ (b ∷ []) [] (Reads-take 1 (b ∷ []) refl) (Reads-pure b)

-- A value that is read, and then converted.
pub Reads-map :
    {A B : Type 0} (p : Parser A) (g : A → B) (xs : Bytes) {a : A} {b : B}
    → Reads p xs a
    → g a ≡ b
    → Reads (p >>= λ x. pure (g x)) xs b
Reads-map p g xs {a} {b} r e = record {
  run = λ c rest h.
      bind-eq p (λ x. pure (g x)) c (r.run c rest h) ∙ ap (λ y. ok (y, advance (length xs) c)) e;
}

pub Reads-u16 : (n : ℕ) → n < 2 ^ 16 → Reads Cursor.u16 (be_bytes 2 n) n
unfolding Cursor.u16
Reads-u16 n h =
    Reads-map (Cursor.take 2) be_value (be_bytes 2 n)
      (Reads-take 2 (be_bytes 2 n) (length-be_bytes 2 n)) (be_value-be_bytes 2 n h)

pub Reads-u32 : (n : ℕ) → n < 2 ^ 32 → Reads Cursor.u32 (be_bytes 4 n) n
unfolding Cursor.u32
Reads-u32 n h =
    Reads-map (Cursor.take 4) be_value (be_bytes 4 n)
      (Reads-take 4 (be_bytes 4 n) (length-be_bytes 4 n)) (be_value-be_bytes 4 n h)

pub Reads-bytes_u16 :
    (maximum : ℕ) (bs : Bytes)
    → length bs ≤ maximum
    → maximum < 2 ^ 16
    → Reads (Cursor.bytes_u16 maximum) (be_bytes 2 (length bs) ++ bs) bs
unfolding Cursor.bytes_u16
Reads-bytes_u16 maximum bs h k =
    Reads-bind Cursor.u16 _ (be_bytes 2 (length bs)) bs (Reads-u16 (length bs) (omega arith)) (
      Reads-if_true (leb (length bs) maximum) _ _ bs (le→leb _ _ h)
        (Reads-take (length bs) bs refl))

Reads-bool_value : (b : Bool) → Reads (bool_value (bool_byte b)) [] (bool b)
unfolding bool_value
Reads-bool_value true = Reads-pure (bool true)
Reads-bool_value false = Reads-pure (bool false)

-- A value is read back from its bytes.
pub Reads-value :
    (v : ValueRef) → IsValue v → Reads (Cursor.value max_attribute_bytes) (value_bytes v) v
unfolding Cursor.value value_bytes
Reads-value (bool b) h =
    Reads-bind Cursor.u8 _ (1 ∷ []) (bool_byte b ∷ []) (Reads-u8 1)
      (Reads-bind Cursor.u8 _ (bool_byte b ∷ []) [] (Reads-u8 (bool_byte b)) (Reads-bool_value b))
Reads-value (i64 z) h = Reads-bind Cursor.u8 _ (2 ∷ []) (be_bytes 8 (i64_bits z)) (Reads-u8 2) (
    Reads-map (Cursor.take 8) (λ t. i64 (i64_value (be_value t))) (be_bytes 8 (i64_bits z))
      (Reads-take 8 (be_bytes 8 (i64_bits z)) (length-be_bytes 8 (i64_bits z)))
      (ap (λ n. i64 (i64_value n)) (be_value-be_bytes 8 (i64_bits z) (i64_bits-lt z h))
        ∙ ap i64 (i64_value-i64_bits z h)))
Reads-value (bytes bs) h =
    Reads-bind Cursor.u8 _ (3 ∷ []) (be_bytes 2 (length bs) ++ bs) (Reads-u8 3) (
      Reads-map (Cursor.bytes_u16 max_attribute_bytes) bytes (be_bytes 2 (length bs) ++ bs)
        (Reads-bytes_u16 max_attribute_bytes bs h.0 (omega arith)) refl)

-- A region returns the bytes that its parser moves over.
pub Reads-region :
    {A : Type 0} (p : Parser A) (xs : Bytes) {a : A} → Reads p xs a → Reads (region p) xs xs
unfolding region
Reads-region p xs {a} r = record {
  run = λ c rest h.
      rw (r.run c rest h, region)
        (ap (λ taken. ok (taken, advance (length xs) c))
          (slice_of_drop c.input xs rest c.position (c.position + length xs) h.here refl));
}

abbrev pub AllClauses : List ClauseRef → Type 0
AllClauses [] = Unit {0}
AllClauses (c ∷ cs) = IsClause c × AllClauses cs

pub Reads-skip_clauses :
    (cs : List ClauseRef) → AllClauses cs → Reads (skip_clauses (length cs)) (clauses_bytes cs) tt
unfolding skip_clauses clauses_bytes clause_bytes
Reads-skip_clauses [] h = Reads-pure tt
Reads-skip_clauses (c ∷ cs) h = rw append_assoc (
    Reads-bind Cursor.u16 _ (be_bytes 2 c.attribute) _ (Reads-u16 c.attribute h.0.0) (
      Reads-bind Cursor.u8 _ (operator_byte c.operator ∷ []) _ (Reads-u8 (operator_byte c.operator))
        (Reads-bind (require (operator_from_u8 (operator_byte c.operator)) malformed) _ [] _
          (Reads-require _ malformed c.operator (operator_from_u8-operator_byte c.operator))
          (Reads-bind (Cursor.value max_attribute_bytes) _ (value_bytes c.value) (clauses_bytes cs)
            (Reads-value c.value h.0.1) (Reads-skip_clauses cs h.1)))))

pub Reads-predicate :
    (cs : List ClauseRef)
    → AllClauses cs
    → length cs ≤ max_clauses
    → Reads Cursor.predicate
        (length cs ∷ clauses_bytes cs)
        (record { encoded = clauses_bytes cs; count = length cs })
unfolding Cursor.predicate
Reads-predicate cs h short =
    Reads-bind Cursor.u8 _ (length cs ∷ []) (clauses_bytes cs) (Reads-u8 (length cs)) (
      Reads-if_true (leb (length cs) max_clauses) _ _ (clauses_bytes cs) (le→leb _ _ short) (
        Reads-map (region (skip_clauses (length cs)))
          (λ e. record { encoded = e; count = length cs }) (clauses_bytes cs)
          (Reads-region (skip_clauses (length cs)) (clauses_bytes cs) (Reads-skip_clauses cs h))
          refl))
