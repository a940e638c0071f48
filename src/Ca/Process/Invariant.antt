-- ===== src/Ca/Process/Invariant.antt =====
-- Every request leaves the store of the authority of implementations/rust/crates/ca-core/src/lib.rs
-- well-formed, on every path.
use secure_pub_sub.Prelude.{ℕ, Bytes}
use secure_pub_sub.Prelude.Map.{Map}
use secure_pub_sub.Protocol.Types.{AgentId}
use secure_pub_sub.Protocol.Primitives.{Primitives, CryptoRandom}
use secure_pub_sub.Ca.Store.{PublicKeys}
use secure_pub_sub.Ca.Guard.{EnvironmentPolicy}
use secure_pub_sub.Ca.Handler.{World}
use secure_pub_sub.Ca.Process.{CaKeys, process}
use secure_pub_sub.Ca.Process.Served.{IsServed, IsInvariant}
use secure_pub_sub.Ca.Process.Served.Kept.{
  check_and_mark-IsServed, put_subscription-IsServed, claim_subscription-IsServed,
  set_environment-IsServed,
}
use secure_pub_sub.Ca.Process.Rule.{process-Serves}

pub IsServed-IsInvariant :
    (policy : EnvironmentPolicy) (directory : Map AgentId PublicKeys)
    → IsInvariant policy directory (IsServed policy directory)
IsServed-IsInvariant policy directory = record {
  provisioned = λ s h. h.provisioned;
  claims = λ s e h. claim_subscription-IsServed policy directory s h e;
  puts = λ s e h entry. put_subscription-IsServed policy directory s h e entry;
  sets = λ s agent encoded h setting.
      set_environment-IsServed policy directory s h agent encoded setting;
}

module _ (p : Primitives) (r : CryptoRandom) (policy : EnvironmentPolicy) (ca : CaKeys)
    (directory : Map AgentId PublicKeys) where
  -- Whatever a request is and however it ends, a store that was well-formed stays so: the directory
  -- is unchanged, the subscriptions keep their limit and their keys, the sessions are within
  -- their limit, every stored subscription parses to one of its kind and type, names a handler and has
  -- a subscriber with an environment, and every stored environment parses and is one that the policy
  -- accepted from an agent of the directory.
  pub process-IsServed :
      (frame : Bytes) (now : ℕ) (w : World r)
      → IsServed policy directory w.store
      → IsServed policy directory (process p r policy ca frame now w).0.store
  process-IsServed frame now w h =
      ((process-Serves p r policy ca directory (IsServed policy directory)
          (IsServed-IsInvariant policy directory) now
          (λ s sender session h. check_and_mark-IsServed policy directory s h sender session now)
          frame).run
        w h).0
