-- ===== src/Ca/Process.antt =====
-- `CertificateAuthority` of implementations/rust/crates/ca-core/src/lib.rs: the processing of one
-- request over a `MemoryStore`, with no other request in between.
pub mod Served
pub mod RoundRule
pub mod Rule
pub mod Invariant
pub mod Admission
pub mod Sessions
pub mod Round
pub mod Ahead
pub mod Rounds
pub mod Publication
pub mod Delivered
mod Tests
pub mod Replayed
use secure_pub_sub.Prelude.{
  ℕ, Bool, true, not, ◌&&◌, List, [], ◌∷◌, ◌++◌, Option, none, some, nat_eq, ◌==◌, ℕ-Eq, List-Eq,
  take, drop, replicate, Bytes, Result, ok, err, map_err, if◌then◌else◌,
}
use secure_pub_sub.Prelude as Prelude
use secure_pub_sub.Protocol.Types.{
  AgentId, TypeId, HandlerId, MessageType, message_eq, Error, malformed, wrong_recipient,
  wrong_message_type, wrong_handler, bad_signature, unauthorized_environment, ca_id, no_handler,
  max_frame_len, header_len,
}
use secure_pub_sub.Protocol.Types as Types
use secure_pub_sub.Protocol.Codec.{parse_envelope}
use secure_pub_sub.Protocol.Cursor.{PredicateRef}
use secure_pub_sub.Protocol.Environment.{EnvironmentRef, evaluate}
use secure_pub_sub.Protocol.Operation.{OperationRef, parse_operation}
use secure_pub_sub.Protocol.Encode.{encode_response}
use secure_pub_sub.Protocol.Primitives.{Primitives, CryptoRandom}
use secure_pub_sub.Protocol.Crypto.{seal_in_place, open_in_place, verify_envelope_signature}
use secure_pub_sub.Ca.Store
use secure_pub_sub.Ca.Store.{
  MemoryStore, PublicKeys, StoredSubscription, SubscriptionKind, one_shot, permanent,
}
use secure_pub_sub.Ca.Guard.{EnvironmentPolicy}
use secure_pub_sub.Ca.Handler.{
  Handler, World, lift, pure, fail, stored, drawn, read, ◌>>=◌, ◌>>◌, ensure,
}

-- The two secrets of `CaKeys`.
pub record CaKeys : Type 0 where
  pub signing : Bytes
  pub x25519 : Bytes

pub data ProcessResult : Type 0 where
  accepted : ProcessResult
  deliveries : List Bytes → ProcessResult

-- `OperationRef::SetEnvironment(environment) => environment, _ => return Err(Error::Malformed)`
abbrev pub as_environment : OperationRef → Result Error EnvironmentRef
as_environment (OperationRef.set_environment environment) = ok environment
as_environment _ = err malformed

-- A stored environment, parsed again.
unfoldable pub parse_environment : Bytes → Result Error EnvironmentRef
parse_environment encoded = Prelude.◌>>=◌ (parse_operation encoded) as_environment

abbrev pub parse_current : Option Bytes → Result Error (Option EnvironmentRef)
parse_current none = ok none
parse_current (some encoded) = Prelude.◌>>=◌ (parse_environment encoded) (λ e. ok (some e))

-- The predicate of a stored subscription, when its kind and its type are those of its encoding.
abbrev pub subscription_predicate :
    TypeId → SubscriptionKind → OperationRef → Result Error PredicateRef
subscription_predicate type_id one_shot (OperationRef.subscribe stored_type predicate) =
    if nat_eq stored_type type_id then ok predicate else err malformed
subscription_predicate type_id permanent (OperationRef.subscribe_permanent stored_type predicate) =
    if nat_eq stored_type type_id then ok predicate else err malformed
subscription_predicate type_id _ _ = err malformed

module _ {r : CryptoRandom} where
  unfoldable pub keys_of : AgentId → Handler r PublicKeys
  keys_of agent w = (w, Store.keys agent w.store)

  -- `self.store.claim_subscription(&subscription)`, which does not fail here.
  unfoldable pub claim : StoredSubscription → Handler r Bool
  claim s w = (
    record w { store = (Store.claim_subscription s w.store).0 },
    ok (Store.claim_subscription s w.store).1,
  )

-- `deliveries.push(delivery)`
abbrev pub push_front : Option Bytes → List Bytes → List Bytes
push_front none frames = frames
push_front (some frame) frames = frame ∷ frames

-- `vec![0u8; MAX_FRAME_LEN]`
unfoldable pub zeroed_frame : Bytes
zeroed_frame = replicate max_frame_len 0

module _ (p : Primitives) (r : CryptoRandom) (policy : EnvironmentPolicy) (ca : CaKeys) where
  -- `self.policy.validate_environment(..).map_err(|_| Error::UnauthorizedEnvironment)`
  abbrev pub validate : AgentId → Option EnvironmentRef → EnvironmentRef → Result Error (Unit {0})
  validate agent current proposed =
      map_err (λ e. unauthorized_environment) (policy.validate_environment agent current proposed)

  unfoldable pub validate_stored_environment : AgentId → Handler r (Unit {0})
  validate_stored_environment agent = do
    found ← read (Store.environment agent)
    encoded ← lift (Prelude.ok_or found unauthorized_environment)
    environment ← lift (parse_environment encoded)
    lift (validate agent none environment)

  unfoldable pub delivery :
      AgentId → AgentId → HandlerId → TypeId → (value recipient_x25519 : Bytes) → Handler r Bytes
  delivery publisher recipient handler type_id value recipient_x25519 = do
    let frame = zeroed_frame
    (payload, plaintext_len) ←
        lift (encode_response (drop header_len frame) type_id publisher value)
    session ← drawn (r.fill_bytes 16)
    salt ← drawn (r.fill_bytes 32)
    ephemeral ← drawn r.ephemeral_secret
    (output, length) ← lift (
        seal_in_place p (take header_len frame ++ payload) plaintext_len Types.publication_response
          ca_id recipient handler session salt ephemeral recipient_x25519 ca.signing)
    pure (take length output)

  unfoldable pub set_environment_request :
      AgentId → HandlerId → Bytes → EnvironmentRef → Handler r ProcessResult
  set_environment_request sender handler plaintext proposed = do
    ensure (handler == no_handler) wrong_handler
    found ← read (Store.environment sender)
    current ← lift (parse_current found)
    lift (validate sender current proposed)
    stored (Store.set_environment sender plaintext)
    pure accepted

  unfoldable pub subscribe_request :
      AgentId → HandlerId → Bytes → TypeId → SubscriptionKind → Handler r ProcessResult
  subscribe_request sender handler plaintext type_id kind = do
    ensure (not (handler == no_handler)) wrong_handler
    validate_stored_environment sender
    stored (
        Store.put_subscription (record {
          subscriber = sender;
          type_id = type_id;
          handler = handler;
          kind = kind;
          encoded = plaintext;
        }))
    pure accepted

  -- The rest of a round, once the subscriber's environment is at hand: `none` where the round ends
  -- with `continue`.
  unfoldable pub deliver_to :
      AgentId
      → EnvironmentRef
      → TypeId
      → PredicateRef
      → Bytes
      → StoredSubscription
      → EnvironmentRef
      → Handler r (Option Bytes)
  deliver_to sender publisher type_id predicate value subscription subscriber =
      if not (evaluate predicate subscriber)
      then pure none
      else if not
          (policy.authorize_delivery sender publisher subscription.subscriber subscriber type_id)
      then pure none
      else (do
        recipient_keys ← keys_of subscription.subscriber
        frame ←
            delivery sender subscription.subscriber subscription.handler type_id value
              recipient_keys.x25519
        claimed ← claim subscription
        pure (if claimed then some frame else none))

  unfoldable pub with_subscriber :
      AgentId
      → EnvironmentRef
      → TypeId
      → PredicateRef
      → Bytes
      → StoredSubscription
      → Option Bytes
      → Handler r (Option Bytes)
  with_subscriber sender publisher type_id predicate value subscription none = pure none
  with_subscriber sender publisher type_id predicate value subscription (some encoded) = do
    subscriber ← lift (parse_environment encoded)
    deliver_to sender publisher type_id predicate value subscription subscriber

  -- One round over the subscriptions.
  unfoldable pub round :
      AgentId
      → EnvironmentRef
      → TypeId
      → PredicateRef
      → Bytes
      → StoredSubscription
      → Handler r (Option Bytes)
  round sender publisher type_id predicate value subscription = do
    operation ← lift (parse_operation subscription.encoded)
    wanted ← lift (subscription_predicate type_id subscription.kind operation)
    if not (evaluate wanted publisher) then pure none else (do
      found ← read (Store.environment subscription.subscriber)
      with_subscriber sender publisher type_id predicate value subscription found)

  unfoldable pub rounds :
      AgentId
      → EnvironmentRef
      → TypeId
      → PredicateRef
      → Bytes
      → List StoredSubscription
      → Handler r (List Bytes)
  rounds sender publisher type_id predicate value [] = pure []
  rounds sender publisher type_id predicate value (subscription ∷ rest) = do
    found ← round sender publisher type_id predicate value subscription
    frames ← rounds sender publisher type_id predicate value rest
    pure (push_front found frames)

  unfoldable pub publish_request :
      AgentId → HandlerId → TypeId → PredicateRef → Bytes → Handler r ProcessResult
  publish_request sender handler type_id predicate value = do
    ensure (handler == no_handler) wrong_handler
    found ← read (Store.environment sender)
    encoded ← lift (Prelude.ok_or found malformed)
    publisher ← lift (parse_environment encoded)
    lift (validate sender none publisher)
    subscriptions ← read (Store.subscriptions_for type_id)
    frames ← rounds sender publisher type_id predicate value subscriptions
    pure (deliveries frames)

  -- The arms of the match on the message type and the operation.
  unfoldable pub dispatch :
      AgentId → HandlerId → Bytes → MessageType → OperationRef → Handler r ProcessResult
  dispatch sender handler plaintext Types.set_environment (OperationRef.set_environment proposed) =
      set_environment_request sender handler plaintext proposed
  dispatch sender handler plaintext Types.subscribe (OperationRef.subscribe type_id predicate) =
      subscribe_request sender handler plaintext type_id one_shot
  dispatch sender handler plaintext Types.subscribe_permanent
        (OperationRef.subscribe_permanent type_id predicate) =
      subscribe_request sender handler plaintext type_id permanent
  dispatch sender handler plaintext Types.publish (OperationRef.publish type_id predicate value) =
      publish_request sender handler type_id predicate value
  dispatch sender handler plaintext _ _ = fail wrong_message_type

  -- The state after the request, and its result.
  unfoldable pub process : Bytes → ℕ → Handler r ProcessResult
  process frame now_seconds = do
    envelope ← lift (parse_envelope frame)
    ensure (envelope.recipient == ca_id && not (envelope.sender == ca_id)) wrong_recipient
    ensure (not (message_eq envelope.message_type Types.publication_response)) wrong_message_type
    public_keys ← keys_of envelope.sender
    ensure (p.is_verifying_key public_keys.ed25519) bad_signature
    again ← lift (parse_envelope frame)
    lift (verify_envelope_signature p again public_keys.ed25519)
    stored (Store.check_and_mark envelope.sender envelope.session_id now_seconds)
    plaintext ←
        lift (open_in_place p frame ca_id envelope.message_type public_keys.ed25519 ca.x25519)
    operation ← lift (parse_operation plaintext)
    dispatch envelope.sender envelope.handler plaintext envelope.message_type operation
