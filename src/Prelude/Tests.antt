-- ===== src/Prelude/Tests.antt =====
-- Boolean tests on the native numbers, the conditional, and equality of keys as an interface.
use Prim.Native.Nat.{ℕ, ◌≤◌, ◌<◌, compare, Ordering}
use mathlib.Core.Path.{◌≡◌, refl}
use mathlib.Core.Logic.{◌↔◌, ◌⊎◌, inl, inr}
use mathlib.Core.Bool.{Bool, true, false, ◌&&◌}
use mathlib.Core.Option.{Option, none, some}
use mathlib.Core.List.{List, [], ◌∷◌}
use native.Mathlib.Omega.{arith}

-- These compute to `compare`, which `ground` and `grind` read with no lemma listed.
abbrev pub ltb : ℕ → ℕ → Bool
ltb a b = elim (compare a b) [ Ordering.lt ↦ true | _ ↦ false ]

abbrev pub leb : ℕ → ℕ → Bool
leb a b = elim (compare a b) [ Ordering.gt ↦ false | _ ↦ true ]

abbrev pub nat_eq : ℕ → ℕ → Bool
nat_eq a b = elim (compare a b) [ Ordering.eq ↦ true | _ ↦ false ]

infix 1 if◌then◌else◌
abbrev pub if◌then◌else◌ {ℓ} : {A : Type ℓ} → Bool → A → A → A
if true then x else y = x
if false then x else y = y

-- `omega` reads a test through such lemmas.
pub ltb→lt : (a b : ℕ) → ltb a b ≡ true → a < b
ltb→lt a b h = ground arith

pub lt→ltb : (a b : ℕ) → a < b → ltb a b ≡ true
lt→ltb a b h = ground arith

pub leb→le : (a b : ℕ) → leb a b ≡ true → a ≤ b
leb→le a b h = ground arith

pub le→leb : (a b : ℕ) → a ≤ b → leb a b ≡ true
le→leb a b h = ground arith

pub nat_eq_iff : (a b : ℕ) → (nat_eq a b ≡ true) ↔ (a ≡ b)
nat_eq_iff a b = ground arith

pub Bool-cases : (b : Bool) → (b ≡ true) ⊎ (b ≡ false)
Bool-cases true = inl refl
Bool-cases false = inr refl

pub &&-eq-true : (a b : Bool) → (a && b) ≡ true → (a ≡ true) × (b ≡ true)
&&-eq-true a b h = ground arith

pub Option-cases {ℓ} : {A : Type ℓ} (o : Option A) → (o ≡ none) ⊎ ((a : A) × (o ≡ some a))
Option-cases none = inl refl
Option-cases (some a) = inr (a, refl)

-- What `==` of a key type promises.
pub record Eq {κ} (K : Type κ) : Type κ where
  pub beq : (left right : K) → Bool
  pub beq_iff : (left right : K) → (beq left right ≡ true) ↔ (left ≡ right)

infix 50 ◌==◌
abbrev pub ◌==◌ {κ} : {K : Type κ} ⦃key : Eq K⦄ → K → K → Bool
◌==◌ ⦃key⦄ left right = key.beq left right

pub ==_iff {ℓ} : {A : Type ℓ} ⦃e : Eq A⦄ (a b : A) → ((a == b) ≡ true) ↔ (a ≡ b)
==_iff ⦃e⦄ a b = e.beq_iff a b

pub ==_refl {ℓ} : {A : Type ℓ} ⦃e : Eq A⦄ (a : A) → (a == a) ≡ true
==_refl ⦃e⦄ a = (e.beq_iff a a).1 refl

instance abbrev pub ℕ-Eq : Eq ℕ
ℕ-Eq = record { beq = nat_eq; beq_iff = nat_eq_iff }

module _ {ℓ} {A : Type ℓ} ⦃e : Eq A⦄ where
  unfoldable pub list_eq : List A → List A → Bool
  list_eq [] [] = true
  list_eq (x ∷ xs) (y ∷ ys) = e.beq x y && list_eq xs ys
  list_eq _ _ = false

  list_eq→eq : (xs ys : List A) → list_eq xs ys ≡ true → xs ≡ ys
  unfolding list_eq
  list_eq→eq [] [] h = refl
  list_eq→eq [] (y ∷ ys) h = cc
  list_eq→eq (x ∷ xs) [] h = cc
  list_eq→eq (x ∷ xs) (y ∷ ys) h = ground (arith, e.beq_iff x y, list_eq→eq xs ys)

  list_eq_refl : (xs : List A) → list_eq xs xs ≡ true
  unfolding list_eq
  list_eq_refl [] = refl
  list_eq_refl (x ∷ xs) = ground (arith, (e.beq_iff x x).1 refl, list_eq_refl xs)

  eq→list_eq : (xs ys : List A) → xs ≡ ys → list_eq xs ys ≡ true
  eq→list_eq xs ys p = rw (← p) (list_eq_refl xs)

  pub list_eq_iff : (xs ys : List A) → (list_eq xs ys ≡ true) ↔ (xs ≡ ys)
  list_eq_iff xs ys = (list_eq→eq xs ys, eq→list_eq xs ys)

  instance abbrev pub List-Eq : Eq (List A)
  List-Eq = record { beq = list_eq; beq_iff = list_eq_iff }

module _ {ℓ κ} {A : Type ℓ} {B : Type κ} ⦃e : Eq A⦄ ⦃f : Eq B⦄ where
  abbrev pub pair_eq : A × B → A × B → Bool
  pair_eq (a, b) (c, d) = e.beq a c && f.beq b d

  pair_eq→eq : (p q : A × B) → pair_eq p q ≡ true → p ≡ q
  pair_eq→eq (a, b) (c, d) h = ground (arith, e.beq_iff a c, f.beq_iff b d)

  pair_eq_refl : (p : A × B) → pair_eq p p ≡ true
  pair_eq_refl (a, b) = ground (arith, (e.beq_iff a a).1 refl, (f.beq_iff b b).1 refl)

  pub pair_eq_iff : (p q : A × B) → (pair_eq p q ≡ true) ↔ (p ≡ q)
  pair_eq_iff p q = (pair_eq→eq p q, λ r. rw (← r) (pair_eq_refl p))

  instance abbrev pub Pair-Eq : Eq (A × B)
  Pair-Eq = record { beq = pair_eq; beq_iff = pair_eq_iff }
