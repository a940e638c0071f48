-- ===== src/Ca/Process/Served.antt =====
-- The invariant of the store under the requests that `CertificateAuthority::process` of
-- implementations/rust/crates/ca-core/src/lib.rs serves.
pub mod Kept
use secure_pub_sub.Prelude.{
  ◌≡◌, Bool, true, false, List, Option, some, is_some, All, Bytes, ok, ◌==◌, ℕ-Eq, List-Eq,
}
use secure_pub_sub.Prelude.Map
use secure_pub_sub.Prelude.Map.{Map}
use secure_pub_sub.Protocol.Types.{AgentId, TypeId, no_handler}
use secure_pub_sub.Protocol.Cursor.{PredicateRef}
use secure_pub_sub.Protocol.Environment.{EnvironmentRef}
use secure_pub_sub.Protocol.Operation.{OperationRef, parse_operation}
use secure_pub_sub.Ca.Replay.Once
use secure_pub_sub.Ca.Store.{
  MemoryStore, PublicKeys, StoredSubscription, environment, subscriptions_for, claim_subscription,
  put_subscription, set_environment,
}
use secure_pub_sub.Ca.Store.Subscriptions.Valid
use secure_pub_sub.Ca.Guard.{EnvironmentPolicy}
use secure_pub_sub.Ca.Process.{parse_environment, subscription_predicate}

-- A stored subscription parses to one of its own kind and type, names a handler, and is that of an
-- agent with an environment.
pub record IsEntry (s : MemoryStore) (type_id : TypeId) (e : StoredSubscription) : Type 0 where
  pub typed : e.type_id ≡ type_id
  pub handled : (e.handler == no_handler) ≡ false
  pub operation : OperationRef
  pub predicate : PredicateRef
  pub encoded : parse_operation e.encoded ≡ ok operation
  pub matching : subscription_predicate type_id e.kind operation ≡ ok predicate
  pub settled : is_some (environment e.subscriber s) ≡ true

-- A stored environment parses, is one that the policy accepted from the agent, and the agent is in
-- the directory.
pub record IsSetting (policy : EnvironmentPolicy) (directory : Map AgentId PublicKeys)
    (agent : AgentId) (encoded : Bytes) : Type 0 where
  pub setting : EnvironmentRef
  pub parsed : parse_environment encoded ≡ ok setting
  pub current : Option EnvironmentRef
  pub approved : policy.validate_environment agent current setting ≡ ok tt
  pub known : is_some (Map.get agent directory) ≡ true

-- The store of an authority with this policy and these provisioned agents.
pub record IsServed (policy : EnvironmentPolicy) (directory : Map AgentId PublicKeys)
    (s : MemoryStore) : Type 0 where
  pub provisioned : s.public_keys ≡ directory
  pub valid : Valid.IsValid s
  pub sessions : Once.IsValid s.replay
  pub entries : (t : TypeId) → All (IsEntry s t) (subscriptions_for t s)
  pub settings :
      (agent : AgentId) (encoded : Bytes)
      → environment agent s ≡ some encoded
      → IsSetting policy directory agent encoded

-- A property of the store that the changes of the requests keep: the claim of a subscription, the
-- storing of one that is an entry, and the setting of an environment that is a setting.
pub record IsInvariant (policy : EnvironmentPolicy) (directory : Map AgentId PublicKeys)
    (P : MemoryStore → Type 0) : Type 0 where
  pub provisioned : (s : MemoryStore) → P s → s.public_keys ≡ directory
  pub claims : (s : MemoryStore) (e : StoredSubscription) → P s → P (claim_subscription e s).0
  pub puts :
      (s : MemoryStore) (e : StoredSubscription)
      → P s
      → IsEntry s e.type_id e
      → P (put_subscription e s).0
  pub sets :
      (s : MemoryStore) (agent : AgentId) (encoded : Bytes)
      → P s
      → IsSetting policy directory agent encoded
      → P (set_environment agent encoded s).0
