-- ===== src/Ca/Process/RoundRule.antt =====
-- The rounds of a publication in `CertificateAuthority::process` of
-- implementations/rust/crates/ca-core/src/lib.rs keep the invariants of the store.
use secure_pub_sub.Prelude.{
  ◌≡◌, refl, subst, Bool, true, false, not, List, [], ◌∷◌, Option, some, none, is_some, Bytes, ℕ-Eq,
  List-Eq, ok_or, if◌then◌else◌,
}
use secure_pub_sub.Prelude.Map
use secure_pub_sub.Prelude.Map.{Map}
use secure_pub_sub.Protocol.Types.{AgentId, HandlerId, TypeId, bad_signature}
use secure_pub_sub.Protocol.Cursor.{PredicateRef}
use secure_pub_sub.Protocol.Environment.{EnvironmentRef, evaluate}
use secure_pub_sub.Protocol.Primitives.{Primitives, CryptoRandom}
use secure_pub_sub.Ca.Store
use secure_pub_sub.Ca.Store.{
  MemoryStore, PublicKeys, StoredSubscription, SubscriptionKind, one_shot, permanent,
}
use secure_pub_sub.Ca.Guard.{EnvironmentPolicy}
use secure_pub_sub.Ca.Handler.{Handler}
use secure_pub_sub.Ca.Handler.Safe.{
  Safe, OkThen, Safe-bind, Safe-lift, Safe-pure, Safe-read, Safe-drawn,
}
use secure_pub_sub.Ca.Process.{
  CaKeys, keys_of, claim, delivery, deliver_to, with_subscriber, round, rounds,
}
use secure_pub_sub.Ca.Process.Served.{IsInvariant}

-- Any result will do.
abbrev pub Any {ℓ} : {A : Type ℓ} → A → Type 0
Any a = Unit {0}

-- The building of a delivery does not touch the store.
module _ (p : Primitives) (r : CryptoRandom) (policy : EnvironmentPolicy) (ca : CaKeys)
    (P : MemoryStore → Type 0) where
  pub delivery-Safe :
      (publisher recipient : AgentId) (handler : HandlerId) (type_id : TypeId) (value key : Bytes)
      → Safe P (delivery p r policy ca publisher recipient handler type_id value key) Any
  unfolding delivery
  delivery-Safe publisher recipient handler type_id value key =
      Safe-bind (Safe-lift _ (λ _ _. tt)) (λ payload _. Safe-bind (Safe-drawn _) (λ session _.
        Safe-bind (Safe-drawn _) (λ salt _.
          Safe-bind (Safe-drawn _)
            (λ ephemeral _. Safe-bind (Safe-lift _ (λ _ _. tt)) (λ sealed _. Safe-pure _ tt)))))

module _ (p : Primitives) (r : CryptoRandom) (policy : EnvironmentPolicy) (ca : CaKeys)
    (directory : Map AgentId PublicKeys) (P : MemoryStore → Type 0)
    (inv : IsInvariant policy directory P) where
  abbrev pub Serves {ℓ} : {A : Type ℓ} → Handler r A → (A → Type 0) → Type ℓ
  Serves = Safe P

  pub if-Serves {ℓ} :
      {A : Type ℓ} {Q : A → Type 0} (test : Bool) {m n : Handler r A}
      → Serves m Q
      → Serves n Q
      → Serves (if test then m else n) Q
  if-Serves true a b = a
  if-Serves false a b = b

  pub keys_of-Serves :
      (agent : AgentId)
      → Serves (keys_of {r = r} agent) (λ _. is_some (Map.get agent directory) ≡ true)
  unfolding keys_of Store.keys
  keys_of-Serves agent = record {
    run = λ w h. (
      h,
      subst
          (λ d.
            OkThen (λ (_ : PublicKeys). is_some (Map.get agent d) ≡ true)
              (Store.keys agent w.store))
          (inv.provisioned w.store h) (found (Map.get agent w.store.public_keys)),
    );
  }
    where
      found :
          (o : Option PublicKeys)
          → OkThen (λ (_ : PublicKeys). is_some o ≡ true) (ok_or o bad_signature)
      found none = tt
      found (some k) = refl

  pub claim-Serves : (e : StoredSubscription) → Serves (claim {r = r} e) Any
  unfolding claim
  claim-Serves e = record { run = λ w h. (inv.claims w.store e h, tt) }

  deliver_to-Serves :
      (sender : AgentId) (publisher : EnvironmentRef) (type_id : TypeId) (predicate : PredicateRef)
      (value : Bytes) (e : StoredSubscription) (subscriber : EnvironmentRef)
      → Serves (deliver_to p r policy ca sender publisher type_id predicate value e subscriber) Any
  unfolding deliver_to
  deliver_to-Serves sender publisher type_id predicate value e subscriber =
      if-Serves (not (evaluate predicate subscriber)) (Safe-pure _ tt) (
        if-Serves (not (policy.authorize_delivery sender publisher e.subscriber subscriber type_id))
          (Safe-pure _ tt)
          (Safe-bind (keys_of-Serves e.subscriber) (λ keys _.
            Safe-bind
              (delivery-Safe p r policy ca P sender e.subscriber e.handler type_id value
                keys.x25519)
              (λ frame _. Safe-bind (claim-Serves e) (λ claimed _. Safe-pure _ tt)))))

  with_subscriber-Serves :
      (sender : AgentId) (publisher : EnvironmentRef) (type_id : TypeId) (predicate : PredicateRef)
      (value : Bytes) (e : StoredSubscription) (found : Option Bytes)
      → Serves (with_subscriber p r policy ca sender publisher type_id predicate value e found) Any
  unfolding with_subscriber
  with_subscriber-Serves sender publisher type_id predicate value e none = Safe-pure _ tt
  with_subscriber-Serves sender publisher type_id predicate value e (some encoded) =
      Safe-bind (Safe-lift {Q = Any} _ (λ _ _. tt))
        (λ subscriber _. deliver_to-Serves sender publisher type_id predicate value e subscriber)

  round-Serves :
      (sender : AgentId) (publisher : EnvironmentRef) (type_id : TypeId) (predicate : PredicateRef)
      (value : Bytes) (e : StoredSubscription)
      → Serves (round p r policy ca sender publisher type_id predicate value e) Any
  unfolding round
  round-Serves sender publisher type_id predicate value e =
      Safe-bind (Safe-lift {Q = Any} _ (λ _ _. tt)) (λ operation _.
        Safe-bind (Safe-lift {Q = Any} _ (λ _ _. tt)) (λ wanted _.
          if-Serves (not (evaluate wanted publisher)) (Safe-pure _ tt) (
            Safe-bind (Safe-read {Q = Any} _ (λ _ _. tt)) (λ found _.
              with_subscriber-Serves sender publisher type_id predicate value e found))))

  pub rounds-Serves :
      (sender : AgentId) (publisher : EnvironmentRef) (type_id : TypeId) (predicate : PredicateRef)
      (value : Bytes) (l : List StoredSubscription)
      → Serves (rounds p r policy ca sender publisher type_id predicate value l) Any
  unfolding rounds
  rounds-Serves sender publisher type_id predicate value [] = Safe-pure _ tt
  rounds-Serves sender publisher type_id predicate value (e ∷ l) =
      Safe-bind (round-Serves sender publisher type_id predicate value e) (λ found _.
        Safe-bind (rounds-Serves sender publisher type_id predicate value l)
          (λ frames _. Safe-pure _ tt))
