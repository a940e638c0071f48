-- ===== src/Ca/Store.antt =====
-- `MemoryStore` of implementations/rust/crates/ca-core/src/lib.rs: keys, environments, subscriptions
-- and the replay cache, each within its limit.
pub mod Bucket
pub mod Unique
pub mod Entries
pub mod Subscriptions
use secure_pub_sub.Prelude.{
  ℕ, ◌+◌, Bool, true, false, ◌&&◌, ◌||◌, not, List, [], ◌∷◌, ◌++◌, Option, none, some, leb, ltb,
  length, Bytes, Result, ok, err, ok_or, if◌then◌else◌, ◌==◌, nat_eq, ℕ-Eq, List-Eq,
}
use secure_pub_sub.Prelude.Map
use secure_pub_sub.Prelude.Map.{Map}
use secure_pub_sub.Protocol.Types.{
  AgentId, TypeId, HandlerId, SessionId, ca_id, Error, malformed, capacity, bad_signature,
}
use secure_pub_sub.Ca.Replay
use secure_pub_sub.Ca.Replay.{ReplayCache}

pub record PublicKeys : Type 0 where
  pub ed25519 : Bytes
  pub x25519 : Bytes

pub data SubscriptionKind : Type 0 where
  one_shot permanent : SubscriptionKind

pub record StoredSubscription : Type 0 where
  pub subscriber : AgentId
  pub type_id : TypeId
  pub handler : HandlerId
  pub kind : SubscriptionKind
  pub encoded : Bytes

pub record StoreLimits : Type 0 where
  pub agents : ℕ
  pub environments : ℕ
  pub subscriptions : ℕ
  pub replays : ℕ
  pub replay_ttl_seconds : ℕ

abbrev pub Subscriptions : Type 0
Subscriptions = Map TypeId (List StoredSubscription)

pub record MemoryStore : Type 0 where
  pub public_keys : Map AgentId PublicKeys
  pub environments : Map AgentId Bytes
  pub subscriptions : Map TypeId (List StoredSubscription)
  pub replay : ReplayCache
  pub limits : StoreLimits

unfoldable pub new : StoreLimits → MemoryStore
new limits = record {
  public_keys = [];
  environments = [];
  subscriptions = [];
  replay = Replay.new limits.replays limits.replay_ttl_seconds;
  limits = limits;
}

unfoldable pub keys : AgentId → MemoryStore → Result Error PublicKeys
keys agent s = ok_or (Map.get agent s.public_keys) bad_signature

unfoldable pub provision :
    AgentId → PublicKeys → MemoryStore → MemoryStore × Result Error (Unit {0})
provision agent public_keys s =
    if agent == ca_id
    then (s, err malformed)
    else if not (Map.contains_key agent s.public_keys) && leb s.limits.agents (length s.public_keys)
    then (s, err capacity)
    else (record s { public_keys = Map.insert agent public_keys s.public_keys }, ok tt)

unfoldable pub environment : AgentId → MemoryStore → Option Bytes
environment agent s = Map.get agent s.environments

unfoldable pub set_environment :
    AgentId → Bytes → MemoryStore → MemoryStore × Result Error (Unit {0})
set_environment agent encoded s =
    if not (Map.contains_key agent s.environments)
      && leb s.limits.environments (length s.environments)
    then (s, err capacity)
    else (record s { environments = Map.insert agent encoded s.environments }, ok tt)

-- `subscriptions.values().map(Vec::len).sum()`
unfoldable pub count : Map TypeId (List StoredSubscription) → ℕ
count [] = 0
count ((_, bucket) ∷ rest) = length bucket + count rest

-- The key of an entry in its bucket.
abbrev pub same_key : StoredSubscription → StoredSubscription → Bool
same_key a b = (a.subscriber == b.subscriber) && (a.handler == b.handler)

-- The first entry with the key, replaced by the new one; `none` when there is none.
unfoldable pub replace :
    StoredSubscription → List StoredSubscription → Option (List StoredSubscription)
replace s [] = none
replace s (entry ∷ rest) =
    if same_key entry s
    then some (s ∷ rest)
    else elim (replace s rest) [ none ↦ none | some rest' ↦ some (entry ∷ rest') ]

-- The order of arrays of bytes.
unfoldable pub bytes_ltb : Bytes → Bytes → Bool
bytes_ltb a [] = false
bytes_ltb [] (y ∷ b) = true
bytes_ltb (x ∷ a) (y ∷ b) = ltb x y || (nat_eq x y && bytes_ltb a b)

-- The order of the sort keys `(subscriber, handler)`.
abbrev pub key_ltb : StoredSubscription → StoredSubscription → Bool
key_ltb a b =
    bytes_ltb a.subscriber b.subscriber
    || ((a.subscriber == b.subscriber) && bytes_ltb a.handler b.handler)

-- `sort_by_key` is stable: an entry goes in front of the later ones whose key is not smaller.
unfoldable pub insert_sorted :
    StoredSubscription → List StoredSubscription → List StoredSubscription
insert_sorted s [] = s ∷ []
insert_sorted s (entry ∷ rest) =
    if key_ltb entry s then entry ∷ insert_sorted s rest else s ∷ entry ∷ rest

unfoldable pub sort_by_key : List StoredSubscription → List StoredSubscription
sort_by_key [] = []
sort_by_key (entry ∷ rest) = insert_sorted entry (sort_by_key rest)

abbrev pub or_default : Option (List StoredSubscription) → List StoredSubscription
or_default none = []
or_default (some bucket) = bucket

-- `entry(type_id).or_default()` stores the empty bucket also on the path that then fails.
unfoldable pub put_subscription :
    StoredSubscription → MemoryStore → MemoryStore × Result Error (Unit {0})
put_subscription subscription s =
    let bucket = or_default (Map.get subscription.type_id s.subscriptions) in
    elim (replace subscription bucket) [
      | some bucket' ↦ (
        record s { subscriptions = Map.insert subscription.type_id bucket' s.subscriptions },
        ok tt,
      )
      | none ↦
          if leb s.limits.subscriptions (count s.subscriptions)
          then (
            record s { subscriptions = Map.insert subscription.type_id bucket s.subscriptions },
            err capacity,
          )
          else (
            record s {
              subscriptions =
                  Map.insert subscription.type_id (sort_by_key (bucket ++ subscription ∷ []))
                    s.subscriptions;
            },
            ok tt,
          )
    ]

unfoldable pub subscriptions_for : TypeId → MemoryStore → List StoredSubscription
subscriptions_for type_id s = or_default (Map.get type_id s.subscriptions)

abbrev pub kind_eq : SubscriptionKind → SubscriptionKind → Bool
kind_eq one_shot one_shot = true
kind_eq permanent permanent = true
kind_eq _ _ = false

-- `entry == subscription`
abbrev pub subscription_eq : StoredSubscription → StoredSubscription → Bool
subscription_eq a b =
    (a.subscriber == b.subscriber)
    && (nat_eq a.type_id b.type_id
        && ((a.handler == b.handler) && (kind_eq a.kind b.kind && (a.encoded == b.encoded))))

-- `position` and `remove` of the first equal entry.
unfoldable pub take_out :
    StoredSubscription → List StoredSubscription → Option (List StoredSubscription)
take_out s [] = none
take_out s (entry ∷ rest) =
    if subscription_eq entry s
    then some rest
    else elim (take_out s rest) [ none ↦ none | some rest' ↦ some (entry ∷ rest') ]

unfoldable pub claim_subscription : StoredSubscription → MemoryStore → MemoryStore × Bool
claim_subscription subscription s = elim (Map.get subscription.type_id s.subscriptions) [
  | none ↦ (s, false)
  | some bucket ↦ elim (take_out subscription bucket) [
    | none ↦ (s, false)
    | some rest ↦
        if kind_eq subscription.kind one_shot
        then (
          record s { subscriptions = Map.insert subscription.type_id rest s.subscriptions },
          true,
        )
        else (s, true)
  ]
]

unfoldable pub check_and_mark :
    AgentId → SessionId → ℕ → MemoryStore → MemoryStore × Result Error (Unit {0})
check_and_mark sender session now_seconds s =
    let (replay', result) = Replay.check_and_mark sender session now_seconds s.replay in
    (record s { replay = replay' }, result)
