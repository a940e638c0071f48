-- ===== src/Agent/Tests.antt =====
-- Runs of the agents' operations at concrete inputs, after the tests of
-- implementations/rust/crates/agent-core/src/lib.rs.
use secure_pub_sub.Prelude.{ℕ, ◌≡◌, refl, [], ◌∷◌, ok, ℕ-Eq, List-Eq}
use secure_pub_sub.Protocol.Types.{AgentId}
use secure_pub_sub.Agent.Replay
use secure_pub_sub.Agent.Replay.{FixedReplayCache}

abbrev id_of : ℕ → AgentId
id_of b = b ∷ b ∷ b ∷ b ∷ b ∷ b ∷ b ∷ b ∷ b ∷ b ∷ b ∷ b ∷ b ∷ b ∷ b ∷ b ∷ []

abbrev two : FixedReplayCache
two = Replay.new 2 10

first_accepted : (Replay.check_and_mark (id_of 1) (id_of 9) 5 two).1 ≡ ok tt
unfolding Replay.check_and_mark Replay.new Replay.expire Replay.is_marked Replay.occupy
first_accepted = refl
