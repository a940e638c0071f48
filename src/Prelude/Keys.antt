-- ===== src/Prelude/Keys.antt =====
-- Lists of keys: membership, removal, and lists that hold a key once.
use Prim.Native.Nat.{suc}
use mathlib.Core.Path.{◌≡◌, refl}
use mathlib.Core.Bool.{Bool, true, false, ◌||◌}
use mathlib.Core.List.{List, [], ◌∷◌, ◌++◌}
use native.Mathlib.Omega.{arith}
use secure_pub_sub.Prelude.Tests.{Eq, if◌then◌else◌}
use secure_pub_sub.Prelude.Lists.{length}

module _ {ℓ} {K : Type ℓ} ⦃e : Eq K⦄ where
  unfoldable pub mem : K → List K → Bool
  mem k [] = false
  mem k (j ∷ js) = e.beq k j || mem k js

  -- `js.retain(|j| *j != k)`
  unfoldable pub without : K → List K → List K
  without k [] = []
  without k (j ∷ js) = let rest = without k js in if e.beq j k then rest else j ∷ rest

  abbrev pub IsNodup : List K → Type 0
  IsNodup [] = Unit {0}
  IsNodup (j ∷ js) = (mem j js ≡ false) × IsNodup js

  pub mem-append : (k : K) (js is : List K) → mem k (js ++ is) ≡ mem k js || mem k is
  unfolding mem
  mem-append k [] is = refl
  mem-append k (j ∷ js) is = ground (arith, mem-append k js is)

  pub mem-without :
      (i k : K) (js : List K) → mem i (without k js) ≡ (if e.beq i k then false else mem i js)
  unfolding mem without
  mem-without i k [] = ground arith
  mem-without i k (j ∷ js) =
      ground (arith, mem-without i k js, e.beq_iff i j, e.beq_iff i k, e.beq_iff j k)

  pub without-IsNodup : (k : K) (js : List K) → IsNodup js → IsNodup (without k js)
  unfolding without
  without-IsNodup k [] h = tt
  without-IsNodup k (j ∷ js) h = ground (arith, without-IsNodup k js h.1, mem-without j k js)

  pub append-IsNodup :
      (k : K) (js : List K) → mem k js ≡ false → IsNodup js → IsNodup (js ++ k ∷ [])
  unfolding mem
  append-IsNodup k [] f h = (refl, tt)
  append-IsNodup k (j ∷ js) f h =
      ground (arith, append-IsNodup k js, mem-append j js (k ∷ []), e.beq_iff j k, e.beq_iff k j)

  pub without_absent : (k : K) (js : List K) → mem k js ≡ false → without k js ≡ js
  unfolding mem without
  without_absent k [] h = refl
  without_absent k (j ∷ js) h = ground (arith, without_absent k js, e.beq_iff k j, e.beq_iff j k)

  pub length-without :
      (k : K) (js : List K) → IsNodup js → mem k js ≡ true → suc (length (without k js)) ≡ length js
  unfolding mem without
  length-without k [] h m = cc
  length-without k (j ∷ js) h m =
      ground (arith, length-without k js h.1, without_absent k js, e.beq_iff k j, e.beq_iff j k)
