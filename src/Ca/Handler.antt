-- ===== src/Ca/Handler.antt =====
-- Runs over the state of the authority: its store and the generator of random bytes. A run that fails
-- keeps what it has changed.
pub mod Safe
use secure_pub_sub.Prelude.{Bool, Result, ok, err}
use secure_pub_sub.Prelude as Prelude
use secure_pub_sub.Protocol.Types.{Error}
use secure_pub_sub.Protocol.Primitives.{CryptoRandom}
use secure_pub_sub.Ca.Store.{MemoryStore}

pub record World (r : CryptoRandom) : Type 0 where
  pub store : MemoryStore
  pub rng : r.State

abbrev pub Handler {ℓ} : CryptoRandom → Type ℓ → Type ℓ
Handler r A = World r → World r × Result Error A

module _ {r : CryptoRandom} where
  -- `?` on a result that does not touch the state.
  unfoldable pub lift {ℓ} : {A : Type ℓ} → Result Error A → Handler r A
  lift result w = (w, result)

  unfoldable pub pure {ℓ} : {A : Type ℓ} → A → Handler r A
  pure a w = (w, ok a)

  unfoldable pub fail {ℓ} : {A : Type ℓ} → Error → Handler r A
  fail e w = (w, err e)

  -- A method of the store.
  unfoldable pub stored {ℓ} :
      {A : Type ℓ} → (MemoryStore → MemoryStore × Result Error A) → Handler r A
  stored method w = (record w { store = (method w.store).0 }, (method w.store).1)

  -- A draw from the generator.
  unfoldable pub drawn : {A : Type 0} → (r.State → r.State × A) → Handler r A
  drawn draw w = (record w { rng = (draw w.rng).0 }, ok (draw w.rng).1)

  unfoldable pub read {ℓ} : {A : Type ℓ} → (MemoryStore → A) → Handler r A
  read view w = (w, ok (view w.store))

  abbrev pub continue {ℓ κ} :
      {A : Type ℓ} {B : Type κ}
      → World r × Result Error A
      → (A → Handler r B)
      → World r × Result Error B
  continue (w, ok a) f = f a w
  continue (w, err e) f = (w, err e)

  infixl 5 ◌>>=◌ ◌>>◌
  unfoldable pub ◌>>=◌ {ℓ κ} :
      {A : Type ℓ} {B : Type κ} → Handler r A → (A → Handler r B) → Handler r B
  ◌>>=◌ m f w = continue (m w) f

  unfoldable pub ◌>>◌ {κ} : {B : Type κ} → Handler r (Unit {0}) → Handler r B → Handler r B
  unfolding ◌>>=◌
  m >> k = m >>= λ _. k

  unfoldable pub ensure : Bool → Error → Handler r (Unit {0})
  unfolding lift
  ensure test e = lift (Prelude.ensure test e)
