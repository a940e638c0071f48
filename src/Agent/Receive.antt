-- ===== src/Agent/Receive.antt =====
-- `Agent::receive` of implementations/rust/crates/agent-core/src/lib.rs, and what waits for it.
pub mod Accepted
pub mod Once
pub mod Delivered
pub mod Waiting
mod Tests
use secure_pub_sub.Prelude.{
  ℕ, Bool, not, ◌&&◌, List, [], ◌∷◌, ◌==◌, nat_eq, leb, take, Bytes, Result, ok, err, ensure, ◌>>=◌,
  ◌>>◌, if◌then◌else◌, ℕ-Eq, List-Eq,
}
use secure_pub_sub.Protocol.Types.{
  AgentId, TypeId, HandlerId, SessionId, message_eq, publication_response, Error, bad_signature,
  wrong_recipient, wrong_message_type, wrong_handler, oversized, no_handler,
}
use secure_pub_sub.Protocol.Codec.{EnvelopeRef, parse_envelope}
use secure_pub_sub.Protocol.Operation.{OperationRef, parse_operation}
use secure_pub_sub.Protocol.Operation as Operation
use secure_pub_sub.Protocol.Primitives.{Primitives}
use secure_pub_sub.Protocol.Crypto.{verify_envelope_signature, open_in_place}
use secure_pub_sub.Agent.Requests.{Agent}
use secure_pub_sub.Agent.Replay
use secure_pub_sub.Agent.Replay.{FixedReplayCache}

-- The trait of implementations/rust/crates/protocol-core/src/traits.rs.
pub record ReplayProtector : Type 1 where
  pub State : Type 0
  pub check_and_mark :
      (sender : AgentId) (session : SessionId) (now_seconds : ℕ)
      → State
      → State × Result Error (Unit {0})

-- `impl ReplayProtector for FixedReplayCache`
abbrev pub fixed : ReplayProtector
fixed = record { State = FixedReplayCache; check_and_mark = Replay.check_and_mark }

pub record Delivery : Type 0 where
  pub type_id : TypeId
  pub publisher : AgentId
  pub handler : HandlerId
  pub value : Bytes

abbrev pub as_delivery : HandlerId → OperationRef → Result Error Delivery
as_delivery handler (Operation.publication_response type_id publisher value) =
    ok (record { type_id = type_id; publisher = publisher; handler = handler; value = value })
as_delivery handler _ = err wrong_message_type

module _ (p : Primitives) (agent : Agent) (frame : Bytes) (expected_handler : HandlerId) where
  -- The checks before the session is marked, with the envelope.
  unfoldable pub inspect : Result Error EnvelopeRef
  inspect = do
    ensure (p.is_verifying_key agent.ca.ed25519) bad_signature
    envelope ← parse_envelope frame
    ensure (envelope.recipient == agent.id) wrong_recipient
    ensure (message_eq envelope.message_type publication_response) wrong_message_type
    ensure (envelope.handler == expected_handler && not (expected_handler == no_handler))
        wrong_handler
    verify_envelope_signature p envelope agent.ca.ed25519
    ok envelope

  -- What follows the mark.
  unfoldable pub unpack : Result Error Delivery
  unpack = do
    plaintext ←
        open_in_place p frame agent.id publication_response agent.ca.ed25519 agent.keys.x25519
    operation ← parse_operation plaintext
    as_delivery expected_handler operation

  module _ (s : ReplayProtector) where
    -- The replay protection after the call, and the delivery.
    unfoldable pub receive : ℕ → s.State → s.State × Result Error Delivery
    receive now_seconds replay = elim inspect [
      | err e ↦ (replay, err e)
      | ok envelope ↦
          let (replay, marked) =
            s.check_and_mark envelope.sender envelope.session_id now_seconds replay in
          (replay, marked >> unpack)
    ]
