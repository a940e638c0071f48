-- ===== src/Ca/Replay.antt =====
-- `ReplayCache` of implementations/rust/crates/ca-core/src/lib.rs: the sessions that were accepted.
pub mod Once
use secure_pub_sub.Prelude.{
  saturating_add, ℕ, ◌+◌, ◌-◌, ◌^◌, Bool, List, [], leb, ltb, length, Result, ok, err,
  if◌then◌else◌, ℕ-Eq, List-Eq, Pair-Eq,
}
use secure_pub_sub.Prelude.Map
use secure_pub_sub.Prelude.Map.{Map}
use secure_pub_sub.Protocol.Types.{AgentId, SessionId, Error, replay, capacity}

pub record ReplayCache : Type 0 where
  pub entries : Map (AgentId × SessionId) ℕ
  pub maximum : ℕ
  pub ttl_seconds : ℕ

unfoldable pub new : ℕ → ℕ → ReplayCache
new maximum ttl_seconds = record { entries = []; maximum = maximum; ttl_seconds = ttl_seconds }

-- The entries that have not expired.
unfoldable pub reclaim : ℕ → ReplayCache → ReplayCache
reclaim now_seconds c = record c { entries = Map.retain (ltb now_seconds) c.entries }

-- Expired entries are dropped on every path.
unfoldable pub check_and_mark :
    AgentId → SessionId → ℕ → ReplayCache → ReplayCache × Result Error (Unit {0})
unfolding reclaim
check_and_mark sender session now_seconds c =
    let live = reclaim now_seconds c in
    if Map.contains_key (sender, session) live.entries
    then (live, err replay)
    else if leb live.maximum (length live.entries)
    then (live, err capacity)
    else let expires = saturating_add now_seconds c.ttl_seconds in
      (record live { entries = Map.insert (sender, session) expires live.entries }, ok tt)
