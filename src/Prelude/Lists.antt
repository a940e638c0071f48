-- ===== src/Prelude/Lists.antt =====
-- Lists measured and cut by native numbers, under the library's names.
use Prim.Native.Nat.{ℕ, zero, suc, ◌+◌, ◌-◌, ◌≤◌, ◌<◌}
use mathlib.Core.Path.{◌≡◌, refl, sym, ap, ◌∙◌}
use mathlib.Core.List.{List, [], ◌∷◌, ◌++◌}
use mathlib.Core.Bool.{Bool, true, false, ◌&&◌, ◌||◌}
use mathlib.Core.Logic.{◌↔◌}
use mathlib.Core.Option.{Option, none, some}
use native.Mathlib.Omega.{arith}

module _ {ℓ} {A : Type ℓ} where
  abbrev pub length : List A → ℕ
  length [] = 0
  length (x ∷ xs) = suc (length xs)

  abbrev pub get_elem? : List A → ℕ → Option A
  get_elem? [] i = none
  get_elem? (x ∷ xs) zero = some x
  get_elem? (x ∷ xs) (suc i) = get_elem? xs i

  abbrev pub take : ℕ → List A → List A
  take zero xs = []
  take (suc n) [] = []
  take (suc n) (x ∷ xs) = x ∷ take n xs

  abbrev pub drop : ℕ → List A → List A
  drop zero xs = xs
  drop (suc n) [] = []
  drop (suc n) (x ∷ xs) = drop n xs

  abbrev pub any : (A → Bool) → List A → Bool
  any p [] = false
  any p (x ∷ xs) = p x || any p xs

  abbrev pub all : (A → Bool) → List A → Bool
  all p [] = true
  all p (x ∷ xs) = p x && all p xs

  -- `xs[i]`, at an index that an earlier test bounds.
  abbrev pub index : List A → ℕ → A → A
  index [] i d = d
  index (x ∷ xs) zero d = x
  index (x ∷ xs) (suc i) d = index xs i d

  -- `&input[from..to]`, where the range is in bounds.
  abbrev pub slice : List A → ℕ → ℕ → List A
  slice xs from to = take (to - from) (drop from xs)

  abbrev pub replicate : ℕ → A → List A
  replicate zero x = []
  replicate (suc n) x = x ∷ replicate n x

  abbrev pub All {κ} : (A → Type κ) → List A → Type κ
  All P [] = Unit {κ}
  All P (x ∷ xs) = P x × All P xs

  pub data Member (a : A) : List A → Type ℓ where
    first : {x : A} {xs : List A} → a ≡ x → Member a (x ∷ xs)
    later : {x : A} {xs : List A} → Member a xs → Member a (x ∷ xs)

module _ {ℓ} {A : Type ℓ} where
  pub all-All {κ} :
      (p : A → Bool) (P : A → Type κ) (xs : List A)
      → ((x : A) → (p x ≡ true) ↔ P x)
      → (all p xs ≡ true) ↔ All P xs
  all-All p P [] h = (λ _. tt, λ _. refl)
  all-All p P (x ∷ xs) h =
      let rest = all-All p P xs h in
      (
        λ e. ((h x).0 (ground (arith, e)), rest.0 (ground (arith, e))),
        λ (one, others). rw ((h x).1 one) (rest.1 others),
      )

  pub any-Member :
      (p : A → Bool) (a : A) (xs : List A)
      → ((x : A) → (p x ≡ true) ↔ (a ≡ x))
      → (any p xs ≡ true) ↔ Member a xs
  any-Member p a [] h = (λ e. absurd (ground arith), none_there)
    where
      none_there : Member a [] → any p [] ≡ true
      none_there m = elim m [ ]
  any-Member p a (x ∷ xs) h = let rest = any-Member p a xs h in (forward rest (p x) refl, back rest)
    where
      forward :
          ((any p xs ≡ true) ↔ Member a xs)
          → (b : Bool) → p x ≡ b
          → (b || any p xs) ≡ true
          → Member a (x ∷ xs)
      forward rest true e t = first ((h x).0 e)
      forward rest false e t = later (rest.0 t)

      back : ((any p xs ≡ true) ↔ Member a xs) → Member a (x ∷ xs) → (p x || any p xs) ≡ true
      back rest (first e) = rw ((h x).1 e) refl
      back rest (later m) = ground (arith, rest.1 m)

module _ {ℓ} {A : Type ℓ} where
  pub length-replicate : (n : ℕ) (x : A) → length (replicate n x) ≡ n
  length-replicate zero x = refl
  length-replicate (suc n) x = ap suc (length-replicate n x)

  pub length-append : (xs ys : List A) → length (xs ++ ys) ≡ length xs + length ys
  length-append [] ys = omega arith
  length-append (x ∷ xs) ys = omega (arith, length-append xs ys)

  pub length-take-le : (n : ℕ) (xs : List A) → n ≤ length xs → length (take n xs) ≡ n
  length-take-le zero xs h = refl
  length-take-le (suc n) [] h = absurd (omega arith)
  length-take-le (suc n) (x ∷ xs) h = ap suc (length-take-le n xs (omega arith))

  pub length-take_bound : (n : ℕ) (xs : List A) → length (take n xs) ≤ n
  length-take_bound zero xs = omega arith
  length-take_bound (suc n) [] = omega arith
  length-take_bound (suc n) (x ∷ xs) = omega (arith, length-take_bound n xs)

  pub length-eq-zero : (xs : List A) → length xs ≡ 0 → xs ≡ []
  length-eq-zero [] h = refl
  length-eq-zero (x ∷ xs) h = absurd (omega arith)

  pub length-drop : (n : ℕ) (xs : List A) → length (drop n xs) ≡ length xs - n
  length-drop zero xs = omega arith
  length-drop (suc n) [] = omega arith
  length-drop (suc n) (x ∷ xs) = omega (arith, length-drop n xs)

  pub drop-length_le : (n : ℕ) (xs : List A) → length xs ≤ n → drop n xs ≡ []
  drop-length_le zero [] h = refl
  drop-length_le (suc n) [] h = refl
  drop-length_le zero (x ∷ xs) h = absurd (omega arith)
  drop-length_le (suc n) (x ∷ xs) h = drop-length_le n xs (omega arith)

  pub take-append-drop : (n : ℕ) (xs : List A) → take n xs ++ drop n xs ≡ xs
  take-append-drop zero xs = refl
  take-append-drop (suc n) [] = refl
  take-append-drop (suc n) (x ∷ xs) = ap (◌∷◌ x) (take-append-drop n xs)

  pub take-length_append : (n : ℕ) (xs ys : List A) → length xs ≡ n → take n (xs ++ ys) ≡ xs
  take-length_append zero [] ys h = refl
  take-length_append zero (x ∷ xs) ys h = absurd (omega arith)
  take-length_append (suc n) [] ys h = absurd (omega arith)
  take-length_append (suc n) (x ∷ xs) ys h = ap (◌∷◌ x) (take-length_append n xs ys (omega arith))

  pub take-append :
      (n k : ℕ) (xs ys : List A) → length xs ≡ n → take (n + k) (xs ++ ys) ≡ xs ++ take k ys
  take-append zero k [] ys h = ap (λ j. take j ys) {x = 0 + k} {y = k} (omega arith)
  take-append zero k (x ∷ xs) ys h = absurd (omega arith)
  take-append (suc n) k [] ys h = absurd (omega arith)
  take-append (suc n) k (x ∷ xs) ys h =
      ap (λ j. take j (x ∷ xs ++ ys)) {x = suc n + k} {y = suc (n + k)} (omega arith)
      ∙ ap (◌∷◌ x) (take-append n k xs ys (omega arith))

  pub take_of_length-le : (n : ℕ) (xs : List A) → length xs ≤ n → take n xs ≡ xs
  take_of_length-le (suc n) (x ∷ xs) short = ap (◌∷◌ x) (take_of_length-le n xs (omega arith))
  take_of_length-le zero (x ∷ xs) short = absurd (omega arith)
  take_of_length-le (suc n) [] short = refl
  take_of_length-le zero [] short = refl

  pub drop-length_append : (n : ℕ) (xs ys : List A) → length xs ≡ n → drop n (xs ++ ys) ≡ ys
  drop-length_append zero [] ys h = refl
  drop-length_append zero (x ∷ xs) ys h = absurd (omega arith)
  drop-length_append (suc n) [] ys h = absurd (omega arith)
  drop-length_append (suc n) (x ∷ xs) ys h = drop-length_append n xs ys (omega arith)

  pub append-injective :
      (xs xs' ys ys' : List A)
      → length xs ≡ length xs'
      → xs ++ ys ≡ xs' ++ ys'
      → (xs ≡ xs') × (ys ≡ ys')
  append-injective xs xs' ys ys' h e = (
    sym (take-length_append (length xs') xs ys h)
        ∙ ap (take (length xs')) e
        ∙ take-length_append (length xs') xs' ys' refl,
    sym (drop-length_append (length xs') xs ys h)
        ∙ ap (drop (length xs')) e
        ∙ drop-length_append (length xs') xs' ys' refl,
  )

  pub drop-nil : (n : ℕ) → drop {A = A} n [] ≡ []
  drop-nil zero = refl
  drop-nil (suc n) = refl

  pub drop-drop : (m n : ℕ) (xs : List A) → drop n (drop m xs) ≡ drop (m + n) xs
  drop-drop zero n xs = ap (λ k. drop k xs) {x = n} {y = 0 + n} (omega arith)
  drop-drop (suc m) n [] = drop-nil n ∙ sym (drop-nil (suc m + n))
  drop-drop (suc m) n (x ∷ xs) =
      drop-drop m n xs ∙ ap (λ k. drop k (x ∷ xs)) {x = suc (m + n)} {y = suc m + n} (omega arith)

module _ {ℓ} {A : Type ℓ} where
  pub length-slice : (xs : List A) (i j : ℕ) → i ≤ j → j ≤ length xs → length (slice xs i j) ≡ j - i
  length-slice xs i j h k = length-take-le (j - i) (drop i xs) (omega (arith, length-drop i xs))

  -- Two neighbouring slices.
  pub slice-append-drop : (xs : List A) (i j : ℕ) → i ≤ j → slice xs i j ++ drop j xs ≡ drop i xs
  slice-append-drop xs i j h =
      ap (λ k. slice xs i j ++ drop k xs) {x = j} {y = i + (j - i)} (omega arith)
      ∙ ap (λ r. slice xs i j ++ r) (sym (drop-drop i (j - i) xs))
      ∙ take-append-drop (j - i) (drop i xs)

  pub slice-index :
      (xs : List A) (i : ℕ) (d : A) → i < length xs → slice xs i (suc i) ≡ index xs i d ∷ []
  slice-index [] i d h = absurd (omega arith)
  slice-index (x ∷ xs) zero d h = refl
  slice-index (x ∷ xs) (suc i) d h =
      ap (λ k. take k (drop i xs)) {x = suc (suc i) - suc i} {y = suc i - i} (omega arith)
      ∙ slice-index xs i d (omega arith)

  -- What is read where the rest of the input is known.
  module _ (xs ys zs : List A) (i j : ℕ) (rest : drop i xs ≡ ys ++ zs)
      (fits : i + length ys ≡ j) where
    pub slice_of_drop : slice xs i j ≡ ys
    slice_of_drop = ap (take (j - i)) rest ∙ take-length_append (j - i) ys zs (omega arith)

    pub drop_of_drop : drop j xs ≡ zs
    drop_of_drop =
        ap (λ k. drop k xs) (sym fits)
        ∙ sym (drop-drop i (length ys) xs)
        ∙ ap (drop (length ys)) rest
        ∙ drop-length_append (length ys) ys zs refl

module _ {ℓ κ} {A : Type ℓ} (P : A → Type κ) where
  pub All-drop : (n : ℕ) (xs : List A) → All P xs → All P (drop n xs)
  All-drop zero xs h = h
  All-drop (suc n) [] h = h
  All-drop (suc n) (x ∷ xs) h = All-drop n xs h.1

  pub All-take : (n : ℕ) (xs : List A) → All P xs → All P (take n xs)
  All-take zero xs h = tt
  All-take (suc n) [] h = h
  All-take (suc n) (x ∷ xs) h = (h.0, All-take n xs h.1)

  pub All-append : (xs ys : List A) → All P xs → All P ys → All P (xs ++ ys)
  All-append [] ys h k = k
  All-append (x ∷ xs) ys h k = (h.0, All-append xs ys h.1 k)
