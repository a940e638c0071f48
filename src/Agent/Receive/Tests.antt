-- ===== src/Agent/Receive/Tests.antt =====
-- Deliveries at an agent of implementations/rust/crates/agent-core/src/lib.rs over the concrete
-- primitives, and the theorems at concrete inputs.
use secure_pub_sub.Prelude.{
  ℕ, ◌≡◌, refl, ap, List, [], ◌∷◌, ◌++◌, Option, none, some, arith, index, replicate, take, length,
  Bytes, Result, ok, err, ℕ-Eq, List-Eq,
}
use secure_pub_sub.Prelude as Prelude
use secure_pub_sub.Protocol.Types.{
  AgentId, HandlerId, ca_id, publication_response, replay, wrong_handler,
}
use secure_pub_sub.Protocol.Cursor
use secure_pub_sub.Protocol.Codec as Codec
use secure_pub_sub.Protocol.Codec.{EnvelopeRef, parse_envelope}
use secure_pub_sub.Protocol.Operation as Operation
use secure_pub_sub.Protocol.Operation.{parse_operation}
use secure_pub_sub.Protocol.Primitives.Toy.{toy, toy-IsSound, counter, counter-Fills}
use secure_pub_sub.Protocol.Crypto as Crypto
use secure_pub_sub.Protocol.Crypto.{seal_in_place, open_in_place}
use secure_pub_sub.Ca.Guard.{allow_all}
use secure_pub_sub.Ca.Handler.{World}
use secure_pub_sub.Ca.Process.{CaKeys, delivery}
use secure_pub_sub.Agent.Requests.{Agent, AgentKeys, empty_frame}
use secure_pub_sub.Agent.Requests.Sealed.{enrolled}
use secure_pub_sub.Agent.Replay
use secure_pub_sub.Agent.Replay.{FixedReplayCache, check_and_mark}
use secure_pub_sub.Agent.Receive
use secure_pub_sub.Agent.Receive.{Delivery, fixed, receive}
use secure_pub_sub.Agent.Receive.Accepted.{IsResponse, receive-IsResponse}
use secure_pub_sub.Agent.Receive.Once.{receive_all, receive-replayed}
use secure_pub_sub.Agent.Receive.Delivered.{delivery-received}
use secure_pub_sub.Agent.Receive.Waiting.{
  Platform, Ends, SubscriptionError, transport, listen, subscribe_permanent, await_delivery,
}
use secure_pub_sub.Agent.Receive.Waiting.Genuine.{IsOutcome, subscribe_permanent-AreGenuine}

abbrev bob : AgentId
bob = 8 ∷ replicate 15 0

abbrev alice : AgentId
alice = 7 ∷ replicate 15 0

abbrev handler : HandlerId
handler = replicate 16 5

abbrev bob_keys : AgentKeys
bob_keys = record { signing = 8 ∷ []; x25519 = 18 ∷ [] }

abbrev authority : CaKeys
authority = record { signing = 50 ∷ []; x25519 = 51 ∷ [] }

abbrev agent : Agent
agent = enrolled toy bob bob_keys authority

abbrev cache : FixedReplayCache
cache = Replay.new 2 600

-- A publication of one byte, from alice.
abbrev message : Bytes
message = 4 ∷ (0 ∷ 0 ∷ 0 ∷ 3 ∷ (alice ++ (0 ∷ 1 ∷ 9 ∷ [])))

abbrev sent : Delivery
sent = record { type_id = 3; publisher = alice; handler = handler; value = 9 ∷ [] }

abbrev frame : Bytes
frame =
    elim (seal_in_place toy (replicate 148 0 ++ (message ++ replicate 80 0)) (length message)
      publication_response ca_id bob handler (replicate 16 9) (replicate 32 5) (11 ∷ [])
      (toy.x25519_public bob_keys.x25519) authority.signing) [ ok r ↦ take r.1 r.0 | err e ↦ [] ]

received : (receive toy agent frame handler fixed 5 cache).1 ≡ ok sent
unfolding receive Receive.inspect parse_envelope seal_in_place Codec.encode_header Prelude.be_bytes
    Prelude.list_eq Prelude.be_value Receive.unpack open_in_place Crypto.verify_envelope_signature
    Crypto.agree Crypto.derive_key_nonce Crypto.expand_label Crypto.append_all Crypto.append
    parse_operation Operation.operation Prelude.saturating_add Cursor.u8 Cursor.take Cursor.region
    check_and_mark Replay.new Replay.expire Replay.is_marked Replay.occupy
    Operation.response_operation Cursor.u32 Cursor.bytes_u16 Cursor.u16
received = refl

wrong_handler_refused :
    receive toy agent frame (replicate 16 6) fixed 5 cache ≡ (cache, err wrong_handler)
unfolding receive Receive.inspect parse_envelope seal_in_place Codec.encode_header Prelude.be_bytes
    Prelude.list_eq Prelude.be_value
wrong_handler_refused = refl

receive-IsResponse_example :
    (e : EnvelopeRef) × (parse_envelope frame ≡ ok e)
    × IsResponse toy agent handler e
    × (check_and_mark e.sender e.session_id 5 cache
        ≡ ((receive toy agent frame handler fixed 5 cache).0, ok tt))
    × (plaintext : Bytes) × (open_in_place toy frame bob publication_response
          (toy.verifying_key authority.signing)
          bob_keys.x25519
        ≡ ok plaintext)
    × (parse_operation plaintext ≡ ok (Operation.publication_response 3 alice (9 ∷ [])))
    × (handler ≡ handler)
receive-IsResponse_example = receive-IsResponse toy agent frame handler fixed 5 cache sent received

-- The frame of another handler in between, and one that is no envelope.
receive-replayed_example :
    (receive toy agent frame handler fixed 604 (
      receive_all toy agent
        ((frame, replicate 16 6, 6) ∷ (1 ∷ [], handler, 7) ∷ [])
        (receive toy agent frame handler fixed 5 cache).0)).1
    ≡ err replay
unfolding Replay.new Prelude.saturating_add
receive-replayed_example =
    receive-replayed toy agent frame handler 5 604
      ((frame, replicate 16 6, 6) ∷ (1 ∷ [], handler, 7) ∷ []) cache sent received
      (omega arith, (omega arith, tt)) (omega arith)

abbrev world : World counter
world = record {
  store = record {
    public_keys = [];
    environments = [];
    subscriptions = [];
    replay = record { entries = []; maximum = 4; ttl_seconds = 600 };
    limits = record {
      agents = 4;
      environments = 4;
      subscriptions = 4;
      replays = 4;
      replay_ttl_seconds = 600;
    };
  };
  rng = 4;
}

fresh : (check_and_mark ca_id (replicate 16 4) 5 cache).1 ≡ ok tt
unfolding check_and_mark Replay.new Replay.expire Replay.is_marked Replay.occupy
fresh = refl

delivery-received_example :
    (frame : Bytes) × (w' : World counter) × (delivery toy counter allow_all authority alice bob
        handler 3
        (9 ∷ [])
        (toy.x25519_public bob_keys.x25519)
        world
      ≡ (w', ok frame))
    × (receive toy agent frame handler fixed 5 cache
        ≡ ((check_and_mark ca_id (replicate 16 4) 5 cache).0, ok sent))
unfolding Prelude.list_eq
delivery-received_example =
    delivery-received toy toy-IsSound counter counter-Fills allow_all authority fixed alice bob
      bob_keys handler 3 (9 ∷ []) (omega arith) refl refl refl
      (λ ephemeral zero. absurd (omega (arith, ap (λ b. index b 0 0) zero))) world 5 cache fresh

-- A line that takes every frame, brings the frames of a list, and fails at their end.
abbrev line : Platform
line = record {
  State = List Bytes;
  Failure = Unit {0};
  send = λ frame frames. (frames, ok tt);
  receive = λ room frames. elim frames [
    | [] ↦ ([], err tt)
    | frame ∷ rest ↦ (rest, ok (frame, length frame))
  ];
  now_seconds = λ frames. 5;
}

-- Two rounds over a line that brings one frame.
abbrev heard :
    (ℕ × Ends toy agent fixed line) × List Delivery × Option (SubscriptionError (Unit {0}))
heard =
    subscribe_permanent toy agent fixed line counter 3 handler [] empty_frame 2
      (0, (frame ∷ [], cache))

subscribe_permanent-AreGenuine_example : IsOutcome toy agent 3 handler fixed line 2 heard.1 heard.2
subscribe_permanent-AreGenuine_example =
    subscribe_permanent-AreGenuine toy agent 3 handler fixed line counter [] empty_frame 2
      (0, (frame ∷ [], cache))

abbrev listened :
    (List Bytes × FixedReplayCache) × List Delivery × Option (SubscriptionError (Unit {0}))
listened = listen toy agent fixed line 3 handler 4324 2 (frame ∷ [], cache)

one_delivery : listened.1 ≡ sent ∷ []
unfolding await_delivery listen receive Receive.inspect parse_envelope seal_in_place
    Codec.encode_header Prelude.be_bytes Prelude.list_eq Prelude.be_value Receive.unpack
    open_in_place Crypto.verify_envelope_signature Crypto.agree Crypto.derive_key_nonce
    Crypto.expand_label Crypto.append_all Crypto.append parse_operation Operation.operation
    Prelude.saturating_add Cursor.u8 Cursor.take Cursor.region check_and_mark Replay.new
    Replay.expire Replay.is_marked Replay.occupy Operation.response_operation Cursor.u32
    Cursor.bytes_u16 Cursor.u16
one_delivery = refl

failed_then : listened.2 ≡ some (transport tt)
unfolding await_delivery listen receive Receive.inspect parse_envelope seal_in_place
    Codec.encode_header Prelude.be_bytes Prelude.list_eq Prelude.be_value Receive.unpack
    open_in_place Crypto.verify_envelope_signature Crypto.agree Crypto.derive_key_nonce
    Crypto.expand_label Crypto.append_all Crypto.append parse_operation Operation.operation
    Prelude.saturating_add Cursor.u8 Cursor.take Cursor.region check_and_mark Replay.new
    Replay.expire Replay.is_marked Replay.occupy Operation.response_operation Cursor.u32
    Cursor.bytes_u16 Cursor.u16
failed_then = refl
