-- ===== src/Ca/Tests.antt =====
-- Runs of the certificate authority's operations at concrete inputs, after the tests of
-- implementations/rust/crates/ca-core/src/lib.rs.
use secure_pub_sub.Prelude.{
  subst, saturating_add, ℕ, ◌≡◌, ◌↔◌, refl, true, false, ◌&&◌, List, [], ◌∷◌, none, some, arith,
  All, be_bytes, be_value, list_eq, ok, err, if◌then◌else◌, ℕ-Eq, List-Eq, Pair-Eq,
}
use secure_pub_sub.Prelude.Map
use secure_pub_sub.Protocol.Types.{AgentId, replay}
use secure_pub_sub.Protocol.Values
use secure_pub_sub.Protocol.Values.{AttributeRef}
use secure_pub_sub.Protocol.Cursor
use secure_pub_sub.Protocol.Environment
use secure_pub_sub.Protocol.Environment.{entries}
use secure_pub_sub.Protocol.Environment.Meaning.{AllAttributes, environment_of}
use secure_pub_sub.Ca.Replay
use secure_pub_sub.Ca.Replay.Once
use secure_pub_sub.Ca.Replay.Once.{check_and_mark-IsValid, check_and_mark-once, run}
use secure_pub_sub.Ca.Store
use secure_pub_sub.Ca.Store.{StoredSubscription, StoreLimits, MemoryStore, one_shot, kind_eq}
use secure_pub_sub.Ca.Store.Subscriptions.{lookup, addressed}
use secure_pub_sub.Ca.Store.Subscriptions.Claim.{claim_iff, lookup-claim_subscription}
use secure_pub_sub.Ca.Store.Subscriptions.Valid
use secure_pub_sub.Ca.Store.Subscriptions.Valid.{
  put_subscription-IsValid, claim_subscription-IsValid, claim_once,
}
use secure_pub_sub.Ca.Policy
use secure_pub_sub.Ca.Policy.{StaticEnvironmentPolicy, validate_environment, authorize_delivery}
use secure_pub_sub.Ca.Values.{ca_issued, bytes_type, bytes}
use secure_pub_sub.Ca.Policy.Decision.{Admitted, Shown, validate_environment_iff}
use secure_pub_sub.Ca.Policy.Changes.{IsPolicy, isolates, apply-IsPolicy}
use secure_pub_sub.Ca.Policy.Isolation.{IsIsolating, Agreed, authorize_delivery-Agreed}

abbrev id_of : ℕ → AgentId
id_of b = b ∷ b ∷ b ∷ b ∷ b ∷ b ∷ b ∷ b ∷ b ∷ b ∷ b ∷ b ∷ b ∷ b ∷ b ∷ b ∷ []

abbrev cache : Replay.ReplayCache
cache = Replay.new 4 600

first_accepted : (Replay.check_and_mark (id_of 1) (id_of 9) 100 cache).1 ≡ ok tt
unfolding Replay.check_and_mark Replay.reclaim Replay.new Map.contains_key Map.get Map.retain
    list_eq
first_accepted = refl

check_and_mark-once_example :
    (Replay.check_and_mark (id_of 1) (id_of 9) 500 (
      run ((id_of 2, id_of 9, 200) ∷ []) (Replay.check_and_mark (id_of 1) (id_of 9) 100 cache).0)).1
    ≡ err replay
unfolding saturating_add Replay.new
check_and_mark-once_example =
    check_and_mark-once (id_of 1) (id_of 9) 100 500 ((id_of 2, id_of 9, 200) ∷ []) cache
      (Once.new-IsValid 4 600) first_accepted (omega arith, tt) (omega arith)

abbrev subscription : StoredSubscription
subscription = record {
  subscriber = id_of 1;
  type_id = 42;
  handler = id_of 5;
  kind = one_shot;
  encoded = 5 ∷ [];
}

abbrev empty : MemoryStore
empty = Store.new (record {
  agents = 4;
  environments = 4;
  subscriptions = 2;
  replays = 4;
  replay_ttl_seconds = 600;
})

empty-IsValid : Valid.IsValid empty
unfolding Store.new Store.subscriptions_for Store.count Map.get
empty-IsValid = record { unique = λ t. tt; bounded = omega arith }

abbrev holding : MemoryStore
holding = (Store.put_subscription subscription empty).0

holding-IsValid : Valid.IsValid holding
holding-IsValid = put_subscription-IsValid subscription empty empty-IsValid

claim_iff_example :
    ((Store.claim_subscription subscription holding).1 ≡ true)
    ↔ (lookup 42 (id_of 1) (id_of 5) holding ≡ some subscription)
claim_iff_example = claim_iff subscription holding (holding-IsValid.unique 42)

lookup-claim_subscription_example :
    lookup 42 (id_of 1) (id_of 5) (Store.claim_subscription subscription holding).0 ≡ (
      if (Store.claim_subscription subscription holding).1
        && (kind_eq subscription.kind one_shot && addressed 42 (id_of 1) (id_of 5) subscription)
      then none
      else lookup 42 (id_of 1) (id_of 5) holding)
lookup-claim_subscription_example =
    lookup-claim_subscription subscription holding (holding-IsValid.unique 42) 42 (id_of 1)
      (id_of 5)

first_claimed : (Store.claim_subscription subscription holding).1 ≡ true
unfolding Store.claim_subscription Store.put_subscription Store.new Store.replace Store.take_out
    Store.count Store.sort_by_key Store.insert_sorted Map.get Map.insert list_eq
first_claimed = refl

claim_once_example :
    (Store.claim_subscription subscription (Store.claim_subscription subscription holding).0).1
    ≡ false
claim_once_example = claim_once subscription holding holding-IsValid refl first_claimed

-- Attribute 3 is issued by the CA, isolates type 42, and has one value for both agents.
abbrev tenant : StaticEnvironmentPolicy
tenant = record Policy.new {
  rules = (3, record { rule_type = bytes_type; authority = ca_issued }) ∷ [];
  approvals = ((id_of 1, 3), bytes (b'a' ∷ [])) ∷ ((id_of 2, 3), bytes (b'a' ∷ [])) ∷ [];
  isolation = (42, 3 ∷ []) ∷ [];
}

abbrev acme : List AttributeRef
acme = record { id = 3; value = Values.bytes (b'a' ∷ []) } ∷ []

acme-AllAttributes : AllAttributes acme
acme-AllAttributes = ((omega arith, (omega arith, (omega arith, tt))), tt)

validate_environment_iff_example :
    (validate_environment (id_of 1) (environment_of acme) tenant ≡ ok tt) ↔ (
      All (Admitted (id_of 1) tenant) (entries (environment_of acme))
      × All (Shown (id_of 1) tenant (environment_of acme)) tenant.approvals)
validate_environment_iff_example = validate_environment_iff (id_of 1) tenant (environment_of acme)

acme_authorized :
    authorize_delivery (id_of 1) (environment_of acme) (id_of 2) (environment_of acme) 42 tenant
    ≡ true
unfolding authorize_delivery validate_environment Policy.validate_attributes
    Policy.validate_attribute Policy.validate_approvals Policy.allows_delivery Policy.isolated
    Policy.required Environment.entries Environment.iter Environment.next Environment.collect
    Environment.get Environment.find Cursor.u8 Cursor.u16 Cursor.take Cursor.value Cursor.bytes_u16
    Values.attributes_bytes Values.attribute_bytes Values.value_bytes be_bytes be_value list_eq
    Map.get
acme_authorized = refl

authorize_delivery-Agreed_example : All (Agreed tenant (id_of 1) (id_of 2) acme acme) (3 ∷ [])
unfolding Map.get
authorize_delivery-Agreed_example =
    authorize_delivery-Agreed tenant (id_of 1) (id_of 2) acme acme acme-AllAttributes
      acme-AllAttributes 42 (3 ∷ []) refl ((_, refl, refl), tt) acme_authorized

tenant-IsPolicy : IsPolicy tenant
unfolding Map.get
tenant-IsPolicy t attributes e =
    let same : 3 ∷ [] ≡ attributes = ground arith in
    subst (IsIsolating tenant) same ((_, refl, refl), tt)

apply-IsPolicy_example : IsPolicy (record tenant { isolation = (42, 3 ∷ []) ∷ (43, 3 ∷ []) ∷ [] })
unfolding Policy.isolate Policy.check_isolated Map.get Map.insert
apply-IsPolicy_example =
    apply-IsPolicy (isolates 43 (3 ∷ [])) tenant
      (record tenant { isolation = (42, 3 ∷ []) ∷ (43, 3 ∷ []) ∷ [] }) tenant-IsPolicy refl
