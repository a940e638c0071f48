-- ===== src/Protocol/Cursor/Parses.antt =====
-- What an accepted input looks like: rules by which a parser's success determines its bytes.
use secure_pub_sub.Prelude.{
  ℕ, ◌+◌, ◌-◌, ◌^◌, ◌≤◌, ◌<◌, ◌≡◌, refl, sym, ap, ap₂, subst, ◌∙◌, Bool, true, false, [], ◌∷◌, ◌++◌,
  append_assoc, append-nil, Option, none, some, arith, leb, leb→le, length, length-append,
  length-slice, slice-append-drop, drop, slice, index, All-take, All-drop, Bytes, AreBytes, IsByte,
  be_bytes, be_value, be_bytes-be_value, be_value-lt, Result, ok, err, ok-injective, if◌then◌else◌,
}
use secure_pub_sub.Protocol.Types.{Error, malformed, oversized}
use secure_pub_sub.Protocol.Cursor
use secure_pub_sub.Protocol.Cursor.{
  Cursor, Parser, PredicateRef, ◌>>=◌, ◌>>◌, pure, fail, require, bool_value, region, skip_clauses,
}
use secure_pub_sub.Protocol.Cursor.Reads.{advance, At-advance}

-- The bytes `xs` lie between two positions of one input.
pub record Moved (c c' : Cursor) (xs : Bytes) : Type 0 where
  pub split : drop c.position c.input ≡ xs ++ drop c'.position c'.input
  pub moved : c' ≡ advance (length xs) c

-- Success with `a` means that the parser moved over bytes in the relation `Q` to `a`.
pub record Parses {A : Type 0} (p : Parser A) (Q : A → Bytes → Type 0) : Type 0 where
  pub run :
      (c c' : Cursor) (a : A)
      → c.position ≤ length c.input
      → AreBytes c.input
      → p c ≡ ok (a, c')
      → (xs : Bytes) × Q a xs × Moved c c' xs

module _ {A : Type 0} where
  pub Parses-pure : (a : A) → Parses (pure a) (λ b xs. (b ≡ a) × (xs ≡ []))
  Parses-pure a = record {
    run = λ c c' b w t e.
        let same = ok-injective e in
        (
          [],
          (sym (ap (λ r. r.0) same), refl),
          record {
            split = ap (λ r. drop r.1.position r.1.input) same;
            moved =
                sym (ap (λ r. r.1) same)
                ∙ ap (λ n. record c { position = n }) {x = c.position} {y = c.position + 0}
                    (omega arith);
          },
        );
  }

  pub Parses-fail : (e : Error) (Q : A → Bytes → Type 0) → Parses (fail e) Q
  Parses-fail e Q = record { run = λ c c' a w t h. absurd (cc) }

  pub Parses-weaken :
      (p : Parser A) (Q R : A → Bytes → Type 0)
      → ((a : A) (xs : Bytes) → Q a xs → R a xs)
      → Parses p Q
      → Parses p R
  Parses-weaken p Q R f r = record {
    run = λ c c' a w t e. let (xs, q, m) = r.run c c' a w t e in (xs, f a xs q, m);
  }

  pub Parses-if :
      (b : Bool) (p q : Parser A) (Q : A → Bytes → Type 0)
      → (b ≡ true → Parses p Q)
      → (b ≡ false → Parses q Q)
      → Parses (if b then p else q) Q
  Parses-if true p q Q f g = f refl
  Parses-if false p q Q f g = g refl

  pub Parses-require :
      (o : Option A) (e : Error) → Parses (require o e) (λ a xs. (o ≡ some a) × (xs ≡ []))
  Parses-require none e = Parses-fail e _
  Parses-require (some a) e =
      Parses-weaken (pure a) _ _ (λ b xs q. (ap some (sym q.0), q.1)) (Parses-pure a)

module _ {A B : Type 0} (p : Parser A) (f : A → Parser B) (Q : A → Bytes → Type 0)
    (R : A → B → Bytes → Type 0) where
  -- One parser after the other.
  abbrev pub Then : B → Bytes → Type 0
  Then b zs = (a : A) × (xs : Bytes) × (ys : Bytes) × Q a xs × R a b ys × (zs ≡ xs ++ ys)

  bind_inv :
      (c c' : Cursor) (b : B)
      → (p >>= f) c ≡ ok (b, c')
      → (a : A) × (d : Cursor) × (p c ≡ ok (a, d)) × (f a d ≡ ok (b, c'))
  bind_inv c c' b h = go (p c) refl h
    where
      go :
          (r : Result Error (A × Cursor))
          → p c ≡ r
          → ◌≡◌ {A = Result Error (B × Cursor)}
              (elim r [ ok (a, d) ↦ f a d | err e ↦ err e ])
              (ok (b, c'))
          → (a : A) × (d : Cursor) × (p c ≡ ok (a, d)) × (f a d ≡ ok (b, c'))
      go (ok (a, d)) e k = (a, d, e, k)
      go (err x) e k = absurd (cc)

  pub Parses-bind : Parses p Q → ((a : A) → Parses (f a) (R a)) → Parses (p >>= f) Then
  Parses-bind r s = record {
    run = λ c c' b w t h.
        let (a, d, e, k) = bind_inv c c' b h in
        let (xs, q, m) = r.run c d a w t e in
        let within : d.position ≤ length d.input =
          subst (λ z. z.position ≤ length z.input) (sym m.moved)
            (At-advance c xs (drop d.position d.input)
              (record { within = w; here = m.split })).within in
        let t' : AreBytes d.input = subst (λ z. AreBytes z.input) (sym m.moved) t in
        let (ys, q', m') = (s a).run d c' b within t' k in
        (
          xs ++ ys,
          (a, xs, ys, q, q', refl),
          record {
            split =
                m.split
                ∙ ap (λ z. xs ++ z) m'.split
                ∙ sym (append_assoc xs ys (drop c'.position c'.input));
            moved =
                m'.moved
                ∙ ap (advance (length ys)) m.moved
                ∙ ap (λ n. record c { position = n }) {x = c.position + length xs + length ys}
                    {y = c.position + length (xs ++ ys)} (omega (arith, length-append xs ys));
          },
        );
  }

Parses-take_at :
    (n : ℕ) (c c' : Cursor) (a : Bytes)
    → AreBytes c.input
    → Cursor.take n c ≡ ok (a, c')
    → (length a ≡ n) × AreBytes a × Moved c c' a
unfolding Cursor.take
Parses-take_at n c c' a t h = go (leb (c.position + n) (length c.input)) refl h
  where
    taken : Bytes
    taken = slice c.input c.position (c.position + n)

    go :
        (b : Bool)
        → leb (c.position + n) (length c.input) ≡ b
        → ◌≡◌ {A = Result Error (Bytes × Cursor)}
            (if◌then◌else◌ {A = Result Error (Bytes × Cursor)} b
              (ok (taken, advance n c))
              (err malformed))
            (ok (a, c'))
        → (length a ≡ n) × AreBytes a × Moved c c' a
    go false e k = absurd (cc)
    go true e k =
        let same = ok-injective k in
        let wide : length taken ≡ n =
          length-slice c.input c.position (c.position + n) (omega arith) (leb→le _ _ e)
          ∙ omega arith in
        subst (λ r. (length r.0 ≡ n) × AreBytes r.0 × Moved c r.1 r.0) same
          (
            wide,
            All-take IsByte (c.position + n - c.position) (drop c.position c.input)
                (All-drop IsByte c.position c.input t),
            record {
              split = sym (slice-append-drop c.input c.position (c.position + n) (omega arith));
              moved = ap (λ k. advance k c) (sym wide);
            },
          )

pub Parses-take : (n : ℕ) → Parses (Cursor.take n) (λ a xs. (xs ≡ a) × (length a ≡ n) × AreBytes a)
Parses-take n = record {
  run = λ c c' a w t h. let (e, b, m) = Parses-take_at n c c' a t h in (a, (refl, e, b), m);
}

-- A conversion of what was read.
pub Parses-map :
    {A B : Type 0} (p : Parser A) (g : A → B) (Q : A → Bytes → Type 0) (R : B → Bytes → Type 0)
    → Parses p Q
    → ((a : A) (xs : Bytes) → Q a xs → R (g a) xs)
    → Parses (p >>= λ x. pure (g x)) R
Parses-map p g Q R r f =
    Parses-weaken (p >>= λ x. pure (g x)) _ R
      (λ b zs (a, xs, ys, q, (e, n), z).
        subst (λ y. R y zs) (sym e)
          (subst (R (g a)) (sym (z ∙ ap (λ y. xs ++ y) n ∙ append-nil xs)) (f a xs q)))
      (Parses-bind p (λ x. pure (g x)) Q _ r (λ a. Parses-pure (g a)))

one_byte : (a : Bytes) → length a ≡ 1 → AreBytes a → (a ≡ index a 0 0 ∷ []) × (index a 0 0 < 256)
one_byte [] e b = absurd (omega arith)
one_byte (x ∷ []) e b = (refl, b.0)
one_byte (x ∷ y ∷ a) e b = absurd (omega arith)

pub Parses-u8 : Parses Cursor.u8 (λ n xs. (xs ≡ n ∷ []) × (n < 256))
unfolding Cursor.u8
Parses-u8 =
    Parses-map (Cursor.take 1) (λ a. index a 0 0) _ _ (Parses-take 1)
      (λ a xs (e, l, b). let (one, small) = one_byte a l b in (e ∙ one, small))

pub Parses-u16 : Parses Cursor.u16 (λ n xs. (xs ≡ be_bytes 2 n) × (n < 65536))
unfolding Cursor.u16
Parses-u16 =
    Parses-map (Cursor.take 2) be_value _ _ (Parses-take 2)
      (λ a xs (e, l, b). (e ∙ sym (be_bytes-be_value 2 a b l), be_value-lt 2 a b l))

pub Parses-u32 : Parses Cursor.u32 (λ n xs. (xs ≡ be_bytes 4 n) × (n < 2 ^ 32))
unfolding Cursor.u32
Parses-u32 =
    Parses-map (Cursor.take 4) be_value _ _ (Parses-take 4)
      (λ a xs (e, l, b). (e ∙ sym (be_bytes-be_value 4 a b l), be_value-lt 4 a b l))

abbrev pub Counted : ℕ → Bytes → Bytes → Type 0
Counted maximum bs xs = (xs ≡ be_bytes 2 (length bs) ++ bs) × (length bs ≤ maximum) × AreBytes bs

pub Parses-bytes_u16 : (maximum : ℕ) → Parses (Cursor.bytes_u16 maximum) (Counted maximum)
unfolding Cursor.bytes_u16
Parses-bytes_u16 maximum =
    Parses-weaken (Cursor.bytes_u16 maximum) _ (Counted maximum)
      (λ bs zs (n, xs, ys, (e, small), (e', l, b, fits), z).
        (z ∙ ap₂ (λ u v. u ++ v) (e ∙ ap (be_bytes 2) (sym l)) e', omega (arith, l, fits), b))
      (Parses-bind Cursor.u16 _ _
        (λ n bs ys. (ys ≡ bs) × (length bs ≡ n) × AreBytes bs × (n ≤ maximum)) Parses-u16
        (λ n.
          Parses-if (leb n maximum) (Cursor.take n) (fail oversized) _
            (λ h.
              Parses-weaken (Cursor.take n) _ _ (λ bs ys (e, l, b). (e, l, b, leb→le _ _ h))
                (Parses-take n))
            (λ h. Parses-fail oversized _)))
