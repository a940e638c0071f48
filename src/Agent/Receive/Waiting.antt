-- ===== src/Agent/Receive/Waiting.antt =====
-- `subscribe_once` and `subscribe_permanent` of implementations/rust/crates/agent-core/src/lib.rs.
pub mod Genuine
use secure_pub_sub.Prelude.{
  ℕ, zero, suc, ◌==◌, List, [], ◌∷◌, Option, none, some, nat_eq, leb, length, take, Bytes, Result,
  ok, err, if◌then◌else◌, ℕ-Eq, List-Eq,
}
use secure_pub_sub.Protocol.Types.{TypeId, HandlerId, Error, oversized, wrong_message_type}
use secure_pub_sub.Protocol.Values.{ClauseRef}
use secure_pub_sub.Protocol.Primitives.{Primitives, CryptoRandom}
use secure_pub_sub.Agent.Requests.{Agent, subscribe_into, subscribe_permanent_into}
use secure_pub_sub.Agent.Receive.{ReplayProtector, Delivery, receive}

pub data SubscriptionError (F : Type 0) : Type 0 where
  protocol : Error → SubscriptionError F
  transport : F → SubscriptionError F

-- `AsyncTransport` and `Clock` of implementations/rust/crates/protocol-core/src/traits.rs, over one
-- state of the platform. `receive` is given the length of the caller's buffer, and returns the buffer
-- and the length of the frame in it.
pub record Platform : Type 1 where
  pub State : Type 0
  pub Failure : Type 0
  pub send : Bytes → State → State × Result Failure (Unit {0})
  pub receive : ℕ → State → State × Result Failure (Bytes × ℕ)
  pub now_seconds : State → ℕ

-- The test of a received delivery's type.
abbrev pub expect_type :
    {F : Type 0} → TypeId → Result Error Delivery → Result (SubscriptionError F) Delivery
expect_type type_id (err e) = err (protocol e)
expect_type type_id (ok delivery) =
    if nat_eq delivery.type_id type_id then ok delivery else err (protocol wrong_message_type)

-- The request that is at the start of a frame, sent.
unfoldable pub send_request :
    (t : Platform)
    → Result Error (Bytes × ℕ)
    → t.State
    → t.State × Result (SubscriptionError t.Failure) (Unit {0})
send_request t (err e) state = (state, err (protocol e))
send_request t (ok (output, request_len)) state =
    let (state, sent) = t.send (take request_len output) state in
    elim sent [ err e ↦ (state, err (transport e)) | ok tt ↦ (state, ok tt) ]

module _ (p : Primitives) (agent : Agent) (s : ReplayProtector) (t : Platform) where
  -- The state of the platform, and the replay protection.
  abbrev pub Ends : Type 0
  Ends = t.State × s.State

  module _ (type_id : TypeId) (handler : HandlerId) (room : ℕ) where
    -- The wait for one delivery, in a buffer of a length.
    unfoldable pub await_delivery : Ends → Ends × Result (SubscriptionError t.Failure) Delivery
    await_delivery (state, replay) =
        let (state, received) = t.receive room state in
        elim received [
          | err e ↦ ((state, replay), err (transport e))
          | ok (buffer, frame_len) ↦
              if leb frame_len room
              then (let (replay, got) =
                    receive p agent (take frame_len buffer) handler s (t.now_seconds state)
                      replay in
                  ((state, replay), expect_type type_id got))
              else ((state, replay), err (protocol oversized))
        ]

    -- The loop of a permanent subscription, for a number of rounds: the deliveries that were given to
    -- the handler, in their order, and the error that ended the loop, or none while it goes on.
    unfoldable pub listen : ℕ → Ends → Ends × List Delivery × Option (SubscriptionError t.Failure)
    listen zero ends = (ends, [], none)
    listen (suc n) ends =
        let (ends, got) = await_delivery ends in
        elim got [
          | err e ↦ (ends, [], some e)
          | ok delivery ↦
              let (ends, later, ended) = listen n ends in (ends, delivery ∷ later, ended)
        ]

  module _ (r : CryptoRandom) (type_id : TypeId) (handler : HandlerId) (predicate : List ClauseRef)
      (frame : Bytes) where
    unfoldable pub subscribe_once :
        r.State × Ends → (r.State × Ends) × Result (SubscriptionError t.Failure) Delivery
    subscribe_once (rng, (state, replay)) =
        let (rng, request) = subscribe_into p r agent frame type_id handler predicate rng in
        let (state, sent) = send_request t request state in
        elim sent [
          | err e ↦ ((rng, (state, replay)), err e)
          | ok tt ↦
              let (ends, got) = await_delivery type_id handler (length frame) (state, replay) in
              ((rng, ends), got)
        ]

    unfoldable pub subscribe_permanent :
        ℕ → r.State × Ends → (r.State × Ends) × List Delivery × Option (SubscriptionError t.Failure)
    subscribe_permanent rounds (rng, (state, replay)) =
        let (rng, request) =
          subscribe_permanent_into p r agent frame type_id handler predicate rng in
        let (state, sent) = send_request t request state in
        elim sent [
          | err e ↦ ((rng, (state, replay)), [], some e)
          | ok tt ↦
              let (ends, deliveries, ended) =
                listen type_id handler (length frame) rounds (state, replay) in
              ((rng, ends), deliveries, ended)
        ]
