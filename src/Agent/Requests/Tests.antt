-- ===== src/Agent/Requests/Tests.antt =====
-- Requests of an agent of implementations/rust/crates/agent-core/src/lib.rs over the concrete
-- primitives, and the theorems at concrete inputs.
use secure_pub_sub.Prelude.{
  ℕ, ◌≡◌, refl, ap, [], ◌∷◌, arith, index, replicate, Bytes, ok, err, ℕ-Eq, List-Eq,
}
use secure_pub_sub.Prelude as Prelude
use secure_pub_sub.Prelude.Map
use secure_pub_sub.Protocol.Types.{AgentId, ca_id, no_handler, wrong_handler, oversized}
use secure_pub_sub.Protocol.Types as Types
use secure_pub_sub.Protocol.Operation.Wire.{Operation, publication, operation_bytes, view}
use secure_pub_sub.Protocol.Primitives.Toy.{toy, toy-IsSound, counter, counter-Fills}
use secure_pub_sub.Ca.Replay
use secure_pub_sub.Ca.Store
use secure_pub_sub.Ca.Guard.{allow_all}
use secure_pub_sub.Ca.Handler.{World}
use secure_pub_sub.Ca.Process.{CaKeys, process, dispatch}
use secure_pub_sub.Agent.Requests.{
  Agent, AgentKeys, set_environment_into, subscribe_into, request_into, place, empty_frame,
}
use secure_pub_sub.Agent.Requests.Sealed.{enrolled, request}
use secure_pub_sub.Agent.Requests.Dispatched.{request-dispatched}

abbrev alice : AgentId
alice = 7 ∷ replicate 15 0

abbrev alice_keys : AgentKeys
alice_keys = record { signing = 7 ∷ []; x25519 = 17 ∷ [] }

abbrev authority : CaKeys
authority = record { signing = 50 ∷ []; x25519 = 51 ∷ [] }

abbrev agent : Agent
agent = enrolled toy alice alice_keys authority

unnamed : (subscribe_into toy counter agent empty_frame 3 no_handler [] 0).1 ≡ err wrong_handler
unfolding subscribe_into Prelude.list_eq
unnamed = refl

short_output : set_environment_into toy counter agent (replicate 100 0) [] 0 ≡ (0, err oversized)
unfolding set_environment_into request_into place
short_output = refl

abbrev start : World counter
start = record {
  store = record {
    public_keys =
        (
          alice,
          record { ed25519 = toy.verifying_key (7 ∷ []); x25519 = toy.x25519_public (17 ∷ []) },
        )
        ∷ [];
    environments = [];
    subscriptions = [];
    replay = Replay.new 4 600;
    limits = record {
      agents = 4;
      environments = 4;
      subscriptions = 4;
      replays = 4;
      replay_ttl_seconds = 600;
    };
  };
  rng = 9;
}

-- A publication of two bytes to everyone.
abbrev greeting : Operation
greeting = publication 3 [] (1 ∷ 2 ∷ [])

fresh : (Store.check_and_mark alice (replicate 16 4) 100 start.store).1 ≡ ok tt
unfolding Store.check_and_mark Replay.check_and_mark Map.contains_key Map.get Map.retain Replay.new
fresh = refl

request-dispatched_example :
    (frame : Bytes) × (rng' : ℕ) × (request toy counter agent greeting no_handler 4
      ≡ (rng', ok frame))
    × (process toy counter allow_all authority frame 100 start
        ≡ dispatch toy counter allow_all authority alice no_handler
            (operation_bytes greeting)
            Types.publish
            (view greeting)
            (record start {
              store = (Store.check_and_mark alice (replicate 16 4) 100 start.store).0;
            }))
unfolding operation_bytes Prelude.be_bytes secure_pub_sub.Protocol.Values.clauses_bytes
    Prelude.list_eq Store.keys Map.get
request-dispatched_example =
    request-dispatched toy toy-IsSound counter counter-Fills counter allow_all authority alice
      alice_keys greeting no_handler (omega arith) refl (omega arith) refl refl refl
      (λ ephemeral zero. absurd (omega (arith, ap (λ b. index b 0 0) zero))) 4 100 start
      (record { ed25519 = toy.verifying_key (7 ∷ []); x25519 = toy.x25519_public (17 ∷ []) }) refl
      refl fresh
