-- ===== src/Ca/Handler/Safe.antt =====
-- What a run keeps of the state, and what its result satisfies.
use secure_pub_sub.Prelude.{◌≡◌, refl, sym, subst, Bool, true, false, Result, ok, err}
use secure_pub_sub.Protocol.Types.{Error}
use secure_pub_sub.Protocol.Primitives.{CryptoRandom}
use secure_pub_sub.Ca.Store.{MemoryStore}
use secure_pub_sub.Ca.Handler.{
  Handler, World, lift, pure, fail, stored, drawn, read, continue, ensure, ◌>>=◌, ◌>>◌,
}

-- A postcondition of the results that are no errors.
abbrev pub OkThen {ℓ κ} : {A : Type ℓ} → (A → Type κ) → Result Error A → Type κ
OkThen Q (ok a) = Q a
OkThen Q (err e) = Unit

-- From a store with the property the run ends in such a store, on every path, and its result
-- satisfies the postcondition.
pub record Safe {ℓ} {r : CryptoRandom} {A : Type ℓ} (P : MemoryStore → Type 0) (m : Handler r A)
    (Q : A → Type 0) : Type ℓ where
  pub run : (w : World r) → P w.store → P (m w).0.store × OkThen Q (m w).1

module _ {ℓ κ} {r : CryptoRandom} {P : MemoryStore → Type 0} {A : Type ℓ} {B : Type κ}
    {Q : A → Type 0} {R : B → Type 0} where
  continue-Safe :
      (f : A → Handler r B)
      → ((a : A) → Q a → Safe P (f a) R)
      → (x : World r × Result Error A) → P x.0.store × OkThen Q x.1
      → P (continue x f).0.store × OkThen R (continue x f).1
  continue-Safe f next (w, ok a) (h, q) = (next a q).run w h
  continue-Safe f next (w, err e) (h, q) = (h, tt)

  pub Safe-bind :
      {m : Handler r A} {f : A → Handler r B}
      → Safe P m Q
      → ((a : A) → Q a → Safe P (f a) R)
      → Safe P (m >>= f) R
  unfolding ◌>>=◌
  Safe-bind {m = m} {f = f} first next = record {
    run = λ w h. continue-Safe f next (m w) (first.run w h);
  }

module _ {ℓ} {r : CryptoRandom} {P : MemoryStore → Type 0} {A : Type ℓ} {Q : A → Type 0} where
  pub Safe-lift :
      (result : Result Error A) → ((a : A) → result ≡ ok a → Q a) → Safe P (lift {r = r} result) Q
  unfolding lift
  Safe-lift (ok a) q = record { run = λ w h. (h, q a refl) }
  Safe-lift (err e) q = record { run = λ w h. (h, tt) }

  pub Safe-pure : (a : A) → Q a → Safe P (pure {r = r} a) Q
  unfolding pure
  Safe-pure a q = record { run = λ w h. (h, q) }

  pub Safe-fail : (e : Error) → Safe P (fail {r = r} e) Q
  unfolding fail
  Safe-fail e = record { run = λ w h. (h, tt) }

  pub Safe-read :
      (view : MemoryStore → A)
      → ((s : MemoryStore) → P s → Q (view s))
      → Safe P (read {r = r} view) Q
  unfolding read
  Safe-read view q = record { run = λ w h. (h, q w.store h) }

module _ {r : CryptoRandom} {P : MemoryStore → Type 0} where
  pub Safe-drawn :
      {A : Type 0} (draw : r.State → r.State × A) → Safe P (drawn {r = r} draw) (λ _. Unit {0})
  unfolding drawn
  Safe-drawn draw = record { run = λ w h. (h, tt) }

  pub Safe-ensure : (test : Bool) (e : Error) → Safe P (ensure {r = r} test e) (λ _. test ≡ true)
  unfolding ensure
  Safe-ensure true e = record { run = λ w h. (h, refl) }
  Safe-ensure false e = record { run = λ w h. (h, tt) }

trivially {ℓ} : {A : Type ℓ} (result : Result Error A) → OkThen (λ _. Unit {0}) result
trivially (ok a) = tt
trivially (err e) = tt

pub Safe-stored {ℓ} :
    {r : CryptoRandom} {P : MemoryStore → Type 0} {A : Type ℓ}
    (method : MemoryStore → MemoryStore × Result Error A)
    → ((s : MemoryStore) → P s → P (method s).0)
    → Safe P (stored {r = r} method) (λ _. Unit {0})
unfolding stored
Safe-stored method keep = record { run = λ w h. (keep w.store h, trivially (method w.store).1) }

module _ {κ} {r : CryptoRandom} {P : MemoryStore → Type 0} {B : Type κ} {Q : Unit {0} → Type 0}
    {R : B → Type 0} where
  pub Safe-then :
      {m : Handler r (Unit {0})} {k : Handler r B}
      → Safe P m Q
      → (Q tt → Safe P k R)
      → Safe P (m >> k) R
  unfolding ◌>>◌
  Safe-then first next = Safe-bind first (λ u q. next q)

module _ {κ} {r : CryptoRandom} {P : MemoryStore → Type 0} {B : Type κ} {R : B → Type 0} where
  -- A test that leaves the state alone, and what it has found out about the state.
  pub Safe-tested :
      (m : Handler r (Unit {0})) (k : Handler r B) (S : MemoryStore → Type 0)
      → ((w : World r) → (m w).0 ≡ w)
      → ((w : World r) → (m w).1 ≡ ok tt → S w.store)
      → ((w : World r) → P w.store → S w.store → P (k w).0.store × OkThen R (k w).1)
      → Safe P (m >> k) R
  unfolding ◌>>◌ ◌>>=◌
  Safe-tested m k S still found next = record {
    run = λ w h. tested (m w) w h (still w) (found w) (next w);
  }
    where
      tested :
          (x : World r × Result Error (Unit {0})) (w : World r)
          → P w.store
          → x.0 ≡ w
          → (x.1 ≡ ok tt → S w.store)
          → (P w.store → S w.store → P (k w).0.store × OkThen R (k w).1)
          → P (continue x (λ _. k)).0.store × OkThen R (continue x (λ _. k)).1
      tested (w', ok u) w h e f n =
          subst (λ v. P (k v).0.store × OkThen R (k v).1) (sym e) (n h (f refl))
      tested (w', err x) w h e f n = (subst (λ v. P v.store) (sym e) h, tt)

module _ {ℓ κ} {r : CryptoRandom} {A : Type ℓ} {B : Type κ} where
  -- A read-only run.
  pub lift-still :
      (result : Result Error A) (f : A → Handler r B) (w : World r)
      → ((a : A) → (f a w).0 ≡ w)
      → ((lift result >>= f) w).0 ≡ w
  unfolding lift ◌>>=◌
  lift-still (ok a) f w still = still a
  lift-still (err e) f w still = refl

-- A change of the store at the end of a run.
pub stored_last {κ} :
    {r : CryptoRandom} (P : MemoryStore → Type 0) {B : Type κ} (R : B → Type 0)
    (method : MemoryStore → MemoryStore × Result Error (Unit {0})) (b : B) (w : World r)
    → P (method w.store).0
    → R b
    → P ((stored method >> pure b) w).0.store × OkThen R ((stored method >> pure b) w).1
unfolding stored pure ◌>>=◌ ◌>>◌
stored_last {r = r} P R method b w h q = last (method w.store) h
  where
    last :
        (x : MemoryStore × Result Error (Unit {0}))
        → P x.0
        → P (continue (record w { store = x.0 }, x.1) (λ _. pure b)).0.store
          × OkThen R (continue (record w { store = x.0 }, x.1) (λ _. pure b)).1
    last (s, ok u) h = (h, q)
    last (s, err e) h = (h, tt)
