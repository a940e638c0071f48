-- ===== src/Ca/Process/Tests.antt =====
-- Requests at the authority of implementations/rust/crates/ca-core/src/lib.rs, over the concrete
-- primitives, and the theorems at concrete inputs.
use secure_pub_sub.Prelude.{
  ℕ, ◌≡◌, refl, ap, List, [], ◌∷◌, ◌++◌, arith, take, replicate, Bytes, Result, ok, err, ◌⊎◌, true,
  none, is_some, ℕ-Eq, List-Eq,
}
use secure_pub_sub.Prelude as Prelude
use secure_pub_sub.Prelude.Map
use secure_pub_sub.Prelude.Map.{Map}
use secure_pub_sub.Protocol.Types.{
  AgentId, MessageType, set_environment, ca_id, no_handler, replay, Error,
}
use secure_pub_sub.Protocol.Codec as Codec
use secure_pub_sub.Protocol.Operation as Operation
use secure_pub_sub.Protocol.Cursor
use secure_pub_sub.Protocol.Primitives.Toy.{toy, counter}
use secure_pub_sub.Protocol.Crypto as Crypto
use secure_pub_sub.Protocol.Crypto.{seal_in_place, open_in_place}
use secure_pub_sub.Ca.Replay
use secure_pub_sub.Ca.Replay.Once
use secure_pub_sub.Ca.Store
use secure_pub_sub.Ca.Store.{MemoryStore, PublicKeys, StoredSubscription, one_shot}
use secure_pub_sub.Ca.Guard.{allow_all}
use secure_pub_sub.Ca.Handler as Handler
use secure_pub_sub.Ca.Handler.{World}
use secure_pub_sub.Ca.Process
use secure_pub_sub.Ca.Process.{
  CaKeys, ProcessResult, accepted, deliveries, process, publish_request, delivery,
}
use secure_pub_sub.Ca.Process.Publication.{IsPublisher, publish-IsServedBy}
use secure_pub_sub.Ca.Process.Rounds.{IsServedBy}
use secure_pub_sub.Protocol.Encode
use secure_pub_sub.Protocol.Writer
use secure_pub_sub.Ca.Process.Admission.{IsAdmitted, gate, serve, process-admits}
use secure_pub_sub.Ca.Process.Sessions.{process_all}
use secure_pub_sub.Ca.Process.Served.Kept.{set_environment-IsServed, put_subscription-IsServed}
use secure_pub_sub.Protocol.Codec.{EnvelopeRef}
use secure_pub_sub.Protocol.Cursor.{PredicateRef}
use secure_pub_sub.Protocol.Environment.{EnvironmentRef}
use secure_pub_sub.Ca.Process.Served.{IsServed, IsSetting, IsEntry}
use secure_pub_sub.Ca.Process.Invariant.{process-IsServed}
use secure_pub_sub.Ca.Process.Replayed.{process-replayed, besides_replay}

abbrev alice : AgentId
alice = 7 ∷ replicate 15 0

abbrev bob : AgentId
bob = 8 ∷ replicate 15 0

abbrev authority : CaKeys
authority = record { signing = 50 ∷ []; x25519 = 51 ∷ [] }

-- The keys of an agent whose secrets are one number.
abbrev keys_of : ℕ → PublicKeys
keys_of n = record { ed25519 = toy.verifying_key (n ∷ []); x25519 = toy.x25519_public (n ∷ []) }

abbrev directory : Map AgentId PublicKeys
directory = (alice, keys_of 7) ∷ (bob, keys_of 8) ∷ []

abbrev start : World counter
start = record {
  store = record {
    public_keys = directory;
    environments = [];
    subscriptions = [];
    replay = Replay.new 4 600;
    limits = record {
      agents = 4;
      environments = 4;
      subscriptions = 4;
      replays = 4;
      replay_ttl_seconds = 600;
    };
  };
  rng = 0;
}

start-IsServed : IsServed allow_all directory start.store
unfolding Store.subscriptions_for Store.count Store.environment Map.get
start-IsServed = record {
  provisioned = refl;
  valid = record { unique = λ t. tt; bounded = omega arith };
  sessions = Once.new-IsValid 4 600;
  entries = λ t. tt;
  settings = λ agent encoded h. absurd (cc);
}

-- A request of an agent, sealed for the authority.
abbrev request : MessageType → AgentId → ℕ → Bytes → Bytes → Bytes
request type sender secret handler plaintext =
    elim (seal_in_place toy (replicate 148 0 ++ (plaintext ++ replicate 80 0))
      (Prelude.length plaintext) type sender ca_id handler (replicate 16 9) (replicate 32 5)
      (11 ∷ []) (toy.x25519_public authority.x25519) (secret ∷ [])) [
        | ok r ↦ take r.1 r.0
        | err e ↦ []
      ]

-- An environment without attributes.
abbrev environment_frame : Bytes
environment_frame = request set_environment alice 7 no_handler (1 ∷ 0 ∷ [])

first_accepted :
    (process toy counter allow_all authority environment_frame 100 start).1 ≡ ok accepted
unfolding process Process.dispatch Process.set_environment_request Process.keys_of
    Process.parse_environment Handler.◌>>=◌ Handler.◌>>◌ Handler.lift Handler.pure Handler.read
    Handler.stored Handler.ensure Handler.fail Handler.drawn seal_in_place open_in_place
    Crypto.verify_envelope_signature Crypto.agree Crypto.derive_key_nonce Crypto.expand_label
    Crypto.append_all Crypto.append Codec.parse_envelope Codec.encode_header Prelude.be_bytes
    Prelude.be_value Prelude.list_eq Prelude.saturating_add Operation.parse_operation
    Operation.operation Operation.environment_operation Operation.skip_attributes Store.keys
    Store.environment Store.set_environment Store.check_and_mark Replay.check_and_mark
    Replay.reclaim Replay.new Map.get Map.insert Map.retain Map.contains_key Cursor.u8 Cursor.take
    Cursor.region
first_accepted = refl

process-IsServed_example :
    IsServed allow_all directory
      (process toy counter allow_all authority environment_frame 100 start).0.store
process-IsServed_example =
    process-IsServed toy counter allow_all authority directory environment_frame 100 start
      start-IsServed

-- The frame comes again, after another one.
abbrev later : World counter
later =
    process_all toy counter allow_all authority directory (([], 200) ∷ [])
      (process toy counter allow_all authority environment_frame 100 start).0

process-replayed_example :
    ((process toy counter allow_all authority environment_frame 500 later).1 ≡ err replay)
    × (besides_replay (process toy counter allow_all authority environment_frame 500 later).0.store
        ≡ besides_replay later.store)
unfolding Prelude.saturating_add Replay.new
process-replayed_example =
    process-replayed toy counter allow_all authority directory environment_frame 100 500
      (([], 200) ∷ []) start accepted start-IsServed first_accepted (omega arith, tt) (omega arith)

process-admits_example :
    ((x : Error) × (process toy counter allow_all authority environment_frame 100 start
        ≡ (start, err x)))
    ⊎ ((e : EnvelopeRef) × (k : PublicKeys) × IsAdmitted toy environment_frame start.store e k
        × (gate toy environment_frame start.store ≡ ok (e, k))
        × (process toy counter allow_all authority environment_frame 100 start
            ≡ serve toy counter allow_all authority environment_frame 100 (e, k) start))
process-admits_example = process-admits toy counter allow_all authority environment_frame 100 start

-- Both agents have an environment, and one has a subscription.
abbrev subscription : StoredSubscription
subscription = record {
  subscriber = bob;
  type_id = 7;
  handler = replicate 16 5;
  kind = one_shot;
  encoded = 5 ∷ 0 ∷ 0 ∷ 0 ∷ 7 ∷ 0 ∷ [];
}

abbrev settled : MemoryStore
settled =
    (Store.set_environment bob (1 ∷ 0 ∷ [])
      (Store.set_environment alice (1 ∷ 0 ∷ []) start.store).0).0

abbrev subscribed : World counter
subscribed = record { store = (Store.put_subscription subscription settled).0; rng = 3 }

abbrev no_attributes : EnvironmentRef
no_attributes = record { encoded = []; count = 0 }

abbrev always : PredicateRef
always = record { encoded = []; count = 0 }

no_attributes-parsed : Process.parse_environment (1 ∷ 0 ∷ []) ≡ ok no_attributes
unfolding Process.parse_environment Operation.parse_operation Operation.operation
    Operation.environment_operation Operation.skip_attributes Cursor.u8 Cursor.take Cursor.region
no_attributes-parsed = refl

setting :
    (agent : AgentId)
    → is_some (Map.get agent directory) ≡ true
    → IsSetting allow_all directory agent (1 ∷ 0 ∷ [])
setting agent known = record {
  setting = no_attributes;
  parsed = no_attributes-parsed;
  current = none;
  approved = refl;
  known = known;
}

settled-IsServed : IsServed allow_all directory settled
unfolding Map.get Prelude.list_eq
settled-IsServed =
    set_environment-IsServed allow_all directory _
      (set_environment-IsServed allow_all directory start.store start-IsServed alice (1 ∷ 0 ∷ [])
        (setting alice refl))
      bob (1 ∷ 0 ∷ []) (setting bob refl)

subscription-IsEntry : IsEntry settled 7 subscription
unfolding Prelude.list_eq Store.environment Store.set_environment Map.get Map.insert
    Map.contains_key Prelude.be_value Operation.parse_operation Operation.operation
    Operation.subscribe_operation Cursor.u8 Cursor.u32 Cursor.take Cursor.region Cursor.predicate
    Cursor.skip_clauses
subscription-IsEntry = record {
  typed = refl;
  handled = refl;
  operation = Operation.subscribe 7 always;
  predicate = always;
  encoded = refl;
  matching = refl;
  settled = refl;
}

subscribed-IsServed : IsServed allow_all directory subscribed.store
subscribed-IsServed =
    put_subscription-IsServed allow_all directory settled settled-IsServed subscription
      subscription-IsEntry

abbrev published : World counter × Result Error ProcessResult
published =
    publish_request toy counter allow_all authority alice no_handler 7 always (1 ∷ 2 ∷ [])
      subscribed

abbrev head_of : List Bytes → Bytes
head_of [] = []
head_of (frame ∷ rest) = frame

abbrev first_of : Result Error ProcessResult → Bytes
first_of (ok (deliveries sent)) = head_of sent
first_of _ = []

abbrev first_frame : Bytes
first_frame = first_of published.1

one_delivery : published.1 ≡ ok (deliveries (first_frame ∷ []))
unfolding publish_request Process.rounds Process.round Process.with_subscriber Process.deliver_to
    Process.claim Process.delivery Process.zeroed_frame Process.validate_stored_environment
    Operation.subscribe_operation Cursor.u32 Cursor.predicate Cursor.skip_clauses
    secure_pub_sub.Protocol.Environment.evaluate Store.put_subscription Store.subscriptions_for
    Store.claim_subscription Store.replace Store.count Store.sort_by_key Store.insert_sorted
    Store.take_out Encode.encode_response Writer.u8 Writer.u32 Writer.bytes_u16 Writer.u16
    Process.keys_of Process.parse_environment Handler.◌>>=◌ Handler.◌>>◌ Handler.lift Handler.pure
    Handler.read Handler.stored Handler.ensure Handler.fail Handler.drawn seal_in_place
    open_in_place Crypto.verify_envelope_signature Crypto.agree Crypto.derive_key_nonce
    Crypto.expand_label Crypto.append_all Crypto.append Codec.parse_envelope Codec.encode_header
    Prelude.be_bytes Prelude.be_value Prelude.list_eq Prelude.saturating_add
    Operation.parse_operation Operation.operation Operation.environment_operation
    Operation.skip_attributes Store.keys Store.environment Store.set_environment
    Store.check_and_mark Replay.check_and_mark Replay.reclaim Replay.new Map.get Map.insert
    Map.retain Map.contains_key Cursor.u8 Cursor.take Cursor.region
one_delivery = refl

publish-IsServedBy_example :
    (publisher : EnvironmentRef) × IsPublisher toy counter allow_all authority directory alice 7
      always
      (1 ∷ 2 ∷ [])
      no_handler
      subscribed
      published.0
      (first_frame ∷ [])
      publisher
    × IsServedBy toy counter allow_all authority directory alice publisher 7 always
        (1 ∷ 2 ∷ [])
        subscribed.store
        (Store.subscriptions_for 7 subscribed.store)
        (first_frame ∷ [])
        subscribed.store
        published.0.store
publish-IsServedBy_example =
    publish-IsServedBy toy counter allow_all authority directory alice 7 always (1 ∷ 2 ∷ [])
      no_handler subscribed published.0 (first_frame ∷ []) subscribed-IsServed
      (ap (λ result. (published.0, result)) one_delivery)
