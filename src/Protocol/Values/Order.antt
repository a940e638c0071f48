-- ===== src/Protocol/Values/Order.antt =====
-- The relations that the operators of a clause stand for, and `compare` of
-- implementations/rust/crates/protocol-core/src/payload.rs.
use Prim.Native.Nat.{compare as nat_compare, Ordering}
use Prim.Native.Nat.compare
use secure_pub_sub.Prelude.{
  ℕ, zero, suc, ◌<◌, ◌≡◌, ◌≢◌, ◌↔◌, ◌⊎◌, inl, inr, refl, sym, ap, ap₂, Bool, true, false, [], ◌∷◌,
  Option, none, some, arith, Bytes, ℤ, pos, negsuc,
}
use secure_pub_sub.Protocol.Types.{Operator, eq, ne, lt, le, gt, ge}
use secure_pub_sub.Protocol.Values.{
  ValueRef, bool, i64, bytes, cmp_bool, cmp_i64, cmp_bytes, ordering, satisfies, compare,
}

-- The order of integers, and the lexicographic order of byte strings.
abbrev pub IsLess : ℤ → ℤ → Type 0
IsLess (pos a) (pos b) = a < b
IsLess (pos a) (negsuc b) = ⊥
IsLess (negsuc a) (pos b) = Unit {0}
IsLess (negsuc a) (negsuc b) = b < a

abbrev pub IsBefore : Bytes → Bytes → Type 0
IsBefore [] [] = ⊥
IsBefore [] (b ∷ bs) = Unit {0}
IsBefore (a ∷ rest) [] = ⊥
IsBefore (a ∷ rest) (b ∷ bs) = (a < b) ⊎ ((a ≡ b) × IsBefore rest bs)

abbrev pub Precedes : ValueRef → ValueRef → Type 0
Precedes (bool a) (bool b) = (a ≡ false) × (b ≡ true)
Precedes (i64 a) (i64 b) = IsLess a b
Precedes (bytes a) (bytes b) = IsBefore a b
Precedes _ _ = ⊥

abbrev pub AreComparable : ValueRef → ValueRef → Type 0
AreComparable (bool a) (bool b) = Unit {0}
AreComparable (i64 a) (i64 b) = Unit {0}
AreComparable (bytes a) (bytes b) = Unit {0}
AreComparable _ _ = ⊥

-- The relation of an operator. Values of different types are in none of them.
abbrev pub Meets : Operator → ValueRef → ValueRef → Type 0
Meets eq a b = a ≡ b
Meets ne a b = AreComparable a b × (a ≢ b)
Meets lt a b = Precedes a b
Meets le a b = Precedes a b ⊎ (a ≡ b)
Meets gt a b = Precedes b a
Meets ge a b = Precedes b a ⊎ (a ≡ b)

-- The answer of a comparison, and what it says of a strict order.
data Answer {A : Type 0} (L : A → A → Type 0) (a b : A) : Ordering → Type 0 where
  less : L a b → a ≢ b → ¬ (L b a) → Answer L a b Ordering.lt
  same : a ≡ b → ¬ (L a b) → ¬ (L b a) → Answer L a b Ordering.eq
  more : L b a → a ≢ b → ¬ (L a b) → Answer L a b Ordering.gt

nat-Answer : (a b : ℕ) → Answer (λ x y. x < y) a b (nat_compare a b)
nat-Answer zero zero = rw compare.zero-zero (same refl (λ l. omega arith) (λ l. omega arith))
nat-Answer zero (suc b) =
    rw (compare.zero-suc b) (less (omega arith) (λ e. omega arith) (λ l. omega arith))
nat-Answer (suc a) zero =
    rw (compare.suc-zero a) (more (omega arith) (λ e. omega arith) (λ l. omega arith))
nat-Answer (suc a) (suc b) = rw (compare.suc-suc a b) (raised (nat_compare a b) (nat-Answer a b))
  where
    raised : (o : Ordering) → Answer (λ x y. x < y) a b o → Answer (λ x y. x < y) (suc a) (suc b) o
    raised Ordering.lt (less l n m) = less (omega arith) (λ e. omega arith) (λ k. omega arith)
    raised Ordering.eq (same e l m) = same (ap suc e) (λ k. omega arith) (λ k. omega arith)
    raised Ordering.gt (more l n m) = more (omega arith) (λ e. omega arith) (λ k. omega arith)

bool-Answer : (a b : Bool) → Answer (λ x y. (x ≡ false) × (y ≡ true)) a b (cmp_bool a b)
bool-Answer false false = same refl (λ l. cc (l.1)) (λ l. cc (l.1))
bool-Answer false true = less (refl, refl) (λ e. cc e) (λ l. cc (l.0))
bool-Answer true false = more (refl, refl) (λ e. cc e) (λ l. cc (l.0))
bool-Answer true true = same refl (λ l. cc (l.0)) (λ l. cc (l.0))

pos-injective : {a b : ℕ} → pos a ≡ pos b → a ≡ b
pos-injective h = cc

negsuc-injective : {a b : ℕ} → negsuc a ≡ negsuc b → a ≡ b
negsuc-injective h = cc

i64-Answer : (a b : ℤ) → Answer IsLess a b (cmp_i64 a b)
i64-Answer (pos a) (pos b) = lifted (nat_compare a b) (nat-Answer a b)
  where
    lifted : (o : Ordering) → Answer (λ x y. x < y) a b o → Answer IsLess (pos a) (pos b) o
    lifted Ordering.lt (less l n m) = less l (λ e. n (pos-injective e)) m
    lifted Ordering.eq (same e l m) = same (ap pos e) l m
    lifted Ordering.gt (more l n m) = more l (λ e. n (pos-injective e)) m
i64-Answer (pos a) (negsuc b) = more tt (λ e. cc e) (λ l. l)
i64-Answer (negsuc a) (pos b) = less tt (λ e. cc e) (λ l. l)
i64-Answer (negsuc a) (negsuc b) = lifted (nat_compare b a) (nat-Answer b a)
  where
    lifted : (o : Ordering) → Answer (λ x y. x < y) b a o → Answer IsLess (negsuc a) (negsuc b) o
    lifted Ordering.lt (less l n m) = less l (λ e. n (sym (negsuc-injective e))) m
    lifted Ordering.eq (same e l m) = same (ap negsuc (sym e)) l m
    lifted Ordering.gt (more l n m) = more l (λ e. n (sym (negsuc-injective e))) m

head-injective : {a b : ℕ} {xs ys : Bytes} → a ∷ xs ≡ b ∷ ys → a ≡ b
head-injective h = cc

tail-injective : {a b : ℕ} {xs ys : Bytes} → a ∷ xs ≡ b ∷ ys → xs ≡ ys
tail-injective h = cc

bytes-Answer : (a b : Bytes) → Answer IsBefore a b (cmp_bytes a b)
unfolding cmp_bytes
bytes-Answer [] [] = same refl (λ l. l) (λ l. l)
bytes-Answer [] (b ∷ bs) = less tt (λ e. cc e) (λ l. l)
bytes-Answer (a ∷ rest) [] = more tt (λ e. cc e) (λ l. l)
bytes-Answer (a ∷ rest) (b ∷ bs) =
    joined (nat_compare a b) (nat-Answer a b) (cmp_bytes rest bs) (bytes-Answer rest bs)
  where
    joined :
        (o : Ordering)
        → Answer (λ x y. x < y) a b o
        → (o' : Ordering) → Answer IsBefore rest bs o'
        → Answer IsBefore
            (a ∷ rest)
            (b ∷ bs)
            (elim o [ Ordering.eq ↦ o' | Ordering.lt ↦ Ordering.lt | Ordering.gt ↦ Ordering.gt ])
    joined Ordering.lt (less l n m) o' later =
        less (inl l) (λ e. n (head-injective e))
          (λ k. elim k [ inl k ↦ m k | inr (k, _) ↦ n (sym k) ])
    joined Ordering.gt (more l n m) o' later =
        more (inl l) (λ e. n (head-injective e)) (λ k. elim k [ inl k ↦ m k | inr (k, _) ↦ n k ])
    joined Ordering.eq (same e l m) Ordering.lt (less k n x) =
        less (inr (e, k)) (λ i. n (tail-injective i))
          (λ j. elim j [ inl j ↦ m j | inr (_, j) ↦ x j ])
    joined Ordering.eq (same e l m) Ordering.eq (same k n x) =
        same (ap₂ (λ c cs. c ∷ cs) e k) (λ j. elim j [ inl j ↦ l j | inr (_, j) ↦ n j ])
          (λ j. elim j [ inl j ↦ m j | inr (_, j) ↦ x j ])
    joined Ordering.eq (same e l m) Ordering.gt (more k n x) =
        more (inr (sym e, k)) (λ i. n (tail-injective i))
          (λ j. elim j [ inl j ↦ l j | inr (_, j) ↦ x j ])

-- Values of one type are compared as their type's order says.
data Compared (a b : ValueRef) : Option Ordering → Type 0 where
  ordered : {o : Ordering} → AreComparable a b → Answer Precedes a b o → Compared a b (some o)
  apart : ¬ (AreComparable a b) → a ≢ b → ¬ (Precedes a b) → ¬ (Precedes b a) → Compared a b none

wrapped :
    {A : Type 0} {L : A → A → Type 0} (wrap : A → ValueRef) (a b : A) (o : Ordering)
    → (wrap a ≡ wrap b → a ≡ b)
    → (L a b → Precedes (wrap a) (wrap b))
    → (Precedes (wrap a) (wrap b) → L a b)
    → (L b a → Precedes (wrap b) (wrap a))
    → (Precedes (wrap b) (wrap a) → L b a)
    → Answer L a b o
    → Answer Precedes (wrap a) (wrap b) o
wrapped wrap a b Ordering.lt inj f g f' g' (less l n m) =
    less (f l) (λ e. n (inj e)) (λ k. m (g' k))
wrapped wrap a b Ordering.eq inj f g f' g' (same e l m) =
    same (ap wrap e) (λ k. l (g k)) (λ k. m (g' k))
wrapped wrap a b Ordering.gt inj f g f' g' (more l n m) =
    more (f' l) (λ e. n (inj e)) (λ k. m (g k))

compared : (a b : ValueRef) → Compared a b (ordering a b)
unfolding ordering
compared (bool a) (bool b) = ordered tt (
    wrapped bool a b (cmp_bool a b) (λ e. cc) (λ l. l) (λ l. l) (λ l. l) (λ l. l) (bool-Answer a b))
compared (i64 a) (i64 b) =
    ordered tt
      (wrapped i64 a b (cmp_i64 a b) (λ e. cc) (λ l. l) (λ l. l) (λ l. l) (λ l. l) (i64-Answer a b))
compared (bytes a) (bytes b) = ordered tt (
    wrapped bytes a b (cmp_bytes a b) (λ e. cc) (λ l. l) (λ l. l) (λ l. l) (λ l. l)
      (bytes-Answer a b))
compared (bool a) (i64 b) = apart (λ c. c) (λ e. cc e) (λ l. l) (λ l. l)
compared (bool a) (bytes b) = apart (λ c. c) (λ e. cc e) (λ l. l) (λ l. l)
compared (i64 a) (bool b) = apart (λ c. c) (λ e. cc e) (λ l. l) (λ l. l)
compared (i64 a) (bytes b) = apart (λ c. c) (λ e. cc e) (λ l. l) (λ l. l)
compared (bytes a) (bool b) = apart (λ c. c) (λ e. cc e) (λ l. l) (λ l. l)
compared (bytes a) (i64 b) = apart (λ c. c) (λ e. cc e) (λ l. l) (λ l. l)

yes : {t : Bool} {P : Type 0} → t ≡ true → P → (t ≡ true) ↔ P
yes e p = (λ _. p, λ _. e)

no : {t : Bool} {P : Type 0} → t ≡ false → ¬ P → (t ≡ true) ↔ P
no e n = (λ e'. absurd (cc (e, e')), λ p. absurd (n p))

-- A comparison succeeds exactly when the values stand in the operator's relation.
pub compare_iff :
    (a : ValueRef) (op : Operator) (b : ValueRef) → (compare a op b ≡ true) ↔ Meets op a b
unfolding compare satisfies
compare_iff a op b = decided op (ordering a b) (compared a b)
  where
    decided :
        (op : Operator) (o : Option Ordering)
        → Compared a b o
        → ((elim o [ none ↦ false | some o ↦ satisfies op o ]) ≡ true) ↔ Meets op a b
    decided eq none (apart c n l m) = no refl n
    decided ne none (apart c n l m) = no refl (λ k. c k.0)
    decided lt none (apart c n l m) = no refl l
    decided le none (apart c n l m) = no refl (λ k. elim k [ inl k ↦ l k | inr k ↦ n k ])
    decided gt none (apart c n l m) = no refl m
    decided ge none (apart c n l m) = no refl (λ k. elim k [ inl k ↦ m k | inr k ↦ n k ])
    decided eq (some Ordering.lt) (ordered c (less l n m)) = no refl n
    decided ne (some Ordering.lt) (ordered c (less l n m)) = yes refl (c, n)
    decided lt (some Ordering.lt) (ordered c (less l n m)) = yes refl l
    decided le (some Ordering.lt) (ordered c (less l n m)) = yes refl (inl l)
    decided gt (some Ordering.lt) (ordered c (less l n m)) = no refl m
    decided ge (some Ordering.lt) (ordered c (less l n m)) =
        no refl (λ k. elim k [ inl k ↦ m k | inr k ↦ n k ])
    decided eq (some Ordering.eq) (ordered c (same e l m)) = yes refl e
    decided ne (some Ordering.eq) (ordered c (same e l m)) = no refl (λ k. k.1 e)
    decided lt (some Ordering.eq) (ordered c (same e l m)) = no refl l
    decided le (some Ordering.eq) (ordered c (same e l m)) = yes refl (inr e)
    decided gt (some Ordering.eq) (ordered c (same e l m)) = no refl m
    decided ge (some Ordering.eq) (ordered c (same e l m)) = yes refl (inr e)
    decided eq (some Ordering.gt) (ordered c (more l n m)) = no refl n
    decided ne (some Ordering.gt) (ordered c (more l n m)) = yes refl (c, n)
    decided lt (some Ordering.gt) (ordered c (more l n m)) = no refl m
    decided le (some Ordering.gt) (ordered c (more l n m)) =
        no refl (λ k. elim k [ inl k ↦ m k | inr k ↦ n k ])
    decided gt (some Ordering.gt) (ordered c (more l n m)) = yes refl l
    decided ge (some Ordering.gt) (ordered c (more l n m)) = yes refl (inl l)
