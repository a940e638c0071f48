-- ===== src/Prelude/Map.antt =====
-- `BTreeMap` and `BTreeSet` as association lists with at most one entry for a key. The order of the
-- entries is the order of insertion: no modelled operation shows the order of the keys.
use Prim.Native.Nat.{suc, ◌≤◌, ◌-◌}
use mathlib.Core.Path.{◌≡◌, refl}
use mathlib.Core.Bool.{Bool, true}
use mathlib.Core.Option.{Option, none, some}
use mathlib.Core.List.{List, [], ◌∷◌}
use native.Mathlib.Omega.{arith}
use secure_pub_sub.Prelude.Tests.{Eq, if◌then◌else◌}
use secure_pub_sub.Prelude.Lists.{length}
use secure_pub_sub.Prelude.Fallible.{is_some}

abbrev pub Map {ℓ κ} : Type ℓ → Type κ → Type (ℓ ⊔ κ)
Map K V = List (K × V)

-- What `retain` keeps under a key.
abbrev pub kept {ℓ} : {V : Type ℓ} → (V → Bool) → Option V → Option V
kept p none = none
kept p (some v) = if p v then some v else none

module _ {ℓ κ} {K : Type ℓ} {V : Type κ} ⦃e : Eq K⦄ where
  unfoldable pub get : K → Map K V → Option V
  get k [] = none
  get k ((j, v) ∷ m) = if e.beq k j then some v else get k m

  unfoldable pub contains_key : K → Map K V → Bool
  contains_key k m = is_some (get k m)

  unfoldable pub insert : K → V → Map K V → Map K V
  insert k v [] = (k, v) ∷ []
  insert k v ((j, w) ∷ m) = if e.beq k j then (k, v) ∷ m else (j, w) ∷ insert k v m

  unfoldable pub remove : K → Map K V → Map K V
  remove k [] = []
  remove k ((j, v) ∷ m) = if e.beq k j then m else (j, v) ∷ remove k m

  unfoldable pub retain : (V → Bool) → Map K V → Map K V
  retain p [] = []
  retain p ((j, v) ∷ m) = let rest = retain p m in if p v then (j, v) ∷ rest else rest

  -- No entry has the key of an earlier one.
  abbrev pub IsMap : Map K V → Type κ
  IsMap [] = Unit {κ}
  IsMap ((j, v) ∷ m) = (get j m ≡ none) × IsMap m

  pub get-insert :
      (k j : K) (v : V) (m : Map K V)
      → get j (insert k v m) ≡ (if e.beq j k then some v else get j m)
  unfolding get insert
  get-insert k j v [] = refl
  get-insert k j v ((i, w) ∷ m) =
      ground (arith, e.beq_iff k i, e.beq_iff j k, e.beq_iff j i, get-insert k j v m)

  pub get-insert_self : (k : K) (v : V) (m : Map K V) → get k (insert k v m) ≡ some v
  get-insert_self k v m = ground (arith, get-insert k k v m, e.beq_iff k k)

  pub get-remove :
      (k j : K) (m : Map K V) → IsMap m → get j (remove k m) ≡ (if e.beq j k then none else get j m)
  unfolding get remove
  get-remove k j [] h = ground arith
  get-remove k j ((i, w) ∷ m) h =
      ground (arith, e.beq_iff k i, e.beq_iff j k, e.beq_iff j i, get-remove k j m h.1)

  pub insert-IsMap : (k : K) (v : V) (m : Map K V) → IsMap m → IsMap (insert k v m)
  unfolding get insert
  insert-IsMap k v [] h = (refl, tt)
  insert-IsMap k v ((j, w) ∷ m) h =
      ground (arith, e.beq_iff k j, e.beq_iff j k, insert-IsMap k v m h.1, get-insert k j v m)

  pub remove-IsMap : (k : K) (m : Map K V) → IsMap m → IsMap (remove k m)
  unfolding remove
  remove-IsMap k [] h = tt
  remove-IsMap k ((j, w) ∷ m) h = ground (arith, remove-IsMap k m h.1, get-remove k j m h.1)

  get-retain-none :
      (p : V → Bool) (k : K) (m : Map K V) → get k m ≡ none → get k (retain p m) ≡ none
  unfolding get retain
  get-retain-none p k [] h = refl
  get-retain-none p k ((j, w) ∷ m) h = ground (arith, get-retain-none p k m)

  pub retain-IsMap : (p : V → Bool) (m : Map K V) → IsMap m → IsMap (retain p m)
  unfolding retain
  retain-IsMap p [] h = tt
  retain-IsMap p ((j, w) ∷ m) h = ground (arith, retain-IsMap p m h.1, get-retain-none p j m)

  pub get-retain :
      (p : V → Bool) (k : K) (m : Map K V) → IsMap m → get k (retain p m) ≡ kept p (get k m)
  unfolding get retain
  get-retain p k [] h = refl
  get-retain p k ((j, w) ∷ m) h =
      ground (arith, e.beq_iff k j, get-retain p k m h.1, get-retain-none p j m)

  pub length-insert :
      (k : K) (v : V) (m : Map K V)
      → length (insert k v m) ≡ (if is_some (get k m) then length m else suc (length m))
  unfolding get insert
  length-insert k v [] = refl
  length-insert k v ((j, w) ∷ m) = ground (arith, length-insert k v m)

  length-pos : (k : K) (m : Map K V) → is_some (get k m) ≡ true → 1 ≤ length m
  unfolding get
  length-pos k [] h = cc
  length-pos k (x ∷ m) h = omega arith

  pub length-remove :
      (k : K) (m : Map K V)
      → length (remove k m) ≡ (if is_some (get k m) then length m - 1 else length m)
  unfolding get remove
  length-remove k [] = refl
  length-remove k ((j, w) ∷ m) = ground (arith, length-remove k m, length-pos k m)

  pub length-retain-le : (p : V → Bool) (m : Map K V) → length (retain p m) ≤ length m
  unfolding retain
  length-retain-le p [] = omega arith
  length-retain-le p ((j, w) ∷ m) = ground (arith, length-retain-le p m)

  pub remove_absent : (k : K) (m : Map K V) → get k m ≡ none → remove k m ≡ m
  unfolding get remove
  remove_absent k [] h = refl
  remove_absent k ((j, w) ∷ m) h = ground (arith, remove_absent k m)
