-- ===== src/Agent/Requests.antt =====
-- `Agent` of implementations/rust/crates/agent-core/src/lib.rs and the requests that it writes.
pub mod Sealed
pub mod Dispatched
mod Tests
use secure_pub_sub.Prelude.{
  ℕ, List, length, take, drop, slice, ◌++◌, leb, ◌==◌, Bytes, Result, ok, err, ensure, ◌>>=◌, ◌>>◌,
  replicate, if◌then◌else◌, ℕ-Eq, List-Eq,
}
use secure_pub_sub.Protocol.Types.{
  AgentId, TypeId, HandlerId, MessageType, Error, oversized, wrong_handler, ca_id, no_handler,
  header_len, max_frame_len,
}
use secure_pub_sub.Protocol.Types as Types
use secure_pub_sub.Protocol.Values.{AttributeRef, ClauseRef}
use secure_pub_sub.Protocol.Encode.{
  encode_environment, encode_subscribe, encode_subscribe_permanent, encode_publish,
}
use secure_pub_sub.Protocol.Primitives.{Primitives, CryptoRandom}
use secure_pub_sub.Protocol.Crypto.{seal_in_place}

-- The two secrets.
pub record AgentKeys : Type 0 where
  pub signing : Bytes
  pub x25519 : Bytes

pub record CaPublicKeys : Type 0 where
  pub ed25519 : Bytes
  pub x25519 : Bytes

pub record Agent : Type 0 where
  pub id : AgentId
  pub keys : AgentKeys
  pub ca : CaPublicKeys

-- An encoder: the slice after it, and the length of what it wrote.
abbrev pub Encoder : Type 0
Encoder = Bytes → Result Error (Bytes × ℕ)

-- `vec![0u8; MAX_FRAME_LEN]`
unfoldable pub empty_frame : Bytes
empty_frame = replicate max_frame_len 0

-- `encode(&mut output[HEADER_LEN..MAX_FRAME_LEN])?`, behind the check of the output's length.
unfoldable pub place : Bytes → Encoder → Result Error (Bytes × ℕ)
place output encode = do
  ensure (leb max_frame_len (length output)) oversized
  (plain, plaintext_len) ← encode (slice output header_len max_frame_len)
  ok (take header_len output ++ (plain ++ drop max_frame_len output), plaintext_len)

-- `frame.truncate(length)`
abbrev pub truncated : {S : Type 0} → S × Result Error (Bytes × ℕ) → S × Result Error Bytes
truncated (rng, ok (frame, n)) = (rng, ok (take n frame))
truncated (rng, err e) = (rng, err e)

module _ (p : Primitives) (r : CryptoRandom) (agent : Agent) where
  -- The generator after the call, and the output with the length of the request.
  abbrev pub Request : Type 0
  Request = r.State → r.State × Result Error (Bytes × ℕ)

  unfoldable pub request_into : Bytes → MessageType → HandlerId → Encoder → Request
  request_into output message_type handler encode rng = elim (place output encode) [
    | err e ↦ (rng, err e)
    | ok (placed, plaintext_len) ↦
        let (rng, session) = r.fill_bytes 16 rng in
        let (rng, salt) = r.fill_bytes 32 rng in
        let (rng, ephemeral) = r.ephemeral_secret rng in
        (
          rng,
          seal_in_place p placed plaintext_len message_type agent.id ca_id handler session salt
              ephemeral agent.ca.x25519 agent.keys.signing,
        )
  ]

  unfoldable pub set_environment_into : Bytes → List AttributeRef → Request
  unfolding request_into
  set_environment_into output attributes =
      request_into output Types.set_environment no_handler
        (λ plain. encode_environment plain attributes)

  unfoldable pub subscribe_into : Bytes → TypeId → HandlerId → List ClauseRef → Request
  unfolding request_into
  subscribe_into output type_id handler predicate rng =
      if handler == no_handler
      then (rng, err wrong_handler)
      else request_into output Types.subscribe handler
          (λ plain. encode_subscribe plain type_id predicate) rng

  unfoldable pub subscribe_permanent_into : Bytes → TypeId → HandlerId → List ClauseRef → Request
  unfolding request_into
  subscribe_permanent_into output type_id handler predicate rng =
      if handler == no_handler
      then (rng, err wrong_handler)
      else request_into output Types.subscribe_permanent handler
          (λ plain. encode_subscribe_permanent plain type_id predicate) rng

  unfoldable pub publish_into : Bytes → TypeId → List ClauseRef → Bytes → Request
  unfolding request_into
  publish_into output type_id predicate value =
      request_into output Types.publish no_handler
        (λ plain. encode_publish plain type_id predicate value)

  unfoldable pub request_owned : (Bytes → Request) → r.State → r.State × Result Error Bytes
  request_owned encode rng = truncated (encode empty_frame rng)

  unfoldable pub set_environment : List AttributeRef → r.State → r.State × Result Error Bytes
  unfolding set_environment_into request_owned
  set_environment attributes = request_owned (λ output. set_environment_into output attributes)

  unfoldable pub subscribe :
      TypeId → HandlerId → List ClauseRef → r.State → r.State × Result Error Bytes
  unfolding subscribe_into request_owned
  subscribe type_id handler predicate =
      request_owned (λ output. subscribe_into output type_id handler predicate)

  unfoldable pub subscribe_permanent_request :
      TypeId → HandlerId → List ClauseRef → r.State → r.State × Result Error Bytes
  unfolding subscribe_permanent_into request_owned
  subscribe_permanent_request type_id handler predicate =
      request_owned (λ output. subscribe_permanent_into output type_id handler predicate)

  unfoldable pub publish : TypeId → List ClauseRef → Bytes → r.State → r.State × Result Error Bytes
  unfolding publish_into request_owned
  publish type_id predicate value =
      request_owned (λ output. publish_into output type_id predicate value)
