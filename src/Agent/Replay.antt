-- ===== src/Agent/Replay.antt =====
-- `FixedReplayCache` of implementations/rust/crates/agent-core/src/lib.rs: the sessions that were
-- accepted, in an array of fixed length.
pub mod Once
use secure_pub_sub.Prelude.{
  ℕ, zero, suc, ◌+◌, Bool, true, false, ◌&&◌, ◌||◌, List, [], ◌∷◌, Option, none, some, leb, nat_eq,
  any, map, Result, ok, err, is_some, saturating_add, if◌then◌else◌, ◌==◌, ℕ-Eq, List-Eq,
}
use secure_pub_sub.Protocol.Types.{AgentId, SessionId, Error, replay, capacity}

pub record ReplayEntry : Type 0 where
  pub sender : AgentId
  pub session : SessionId
  pub expires_at : ℕ

pub record FixedReplayCache : Type 0 where
  pub entries : List (Option ReplayEntry)
  pub ttl_seconds : ℕ

abbrev pub vacant : ℕ → List (Option ReplayEntry)
vacant zero = []
vacant (suc n) = none ∷ vacant n

unfoldable pub new : ℕ → ℕ → FixedReplayCache
new n ttl_seconds = record { entries = vacant n; ttl_seconds = ttl_seconds }

abbrev pub occupied : List (Option ReplayEntry) → ℕ
occupied [] = 0
occupied (none ∷ rest) = occupied rest
occupied (some _ ∷ rest) = suc (occupied rest)

unfoldable pub len : FixedReplayCache → ℕ
len c = occupied c.entries

unfoldable pub is_empty : FixedReplayCache → Bool
is_empty c = nat_eq (len c) 0

-- The first loop: expired entries are cleared.
unfoldable pub expire : ℕ → List (Option ReplayEntry) → List (Option ReplayEntry)
expire now_seconds [] = []
expire now_seconds (none ∷ rest) = none ∷ expire now_seconds rest
expire now_seconds (some entry ∷ rest) =
    (if leb entry.expires_at now_seconds then none else some entry) ∷ expire now_seconds rest

unfoldable pub is_marked : AgentId → SessionId → List (Option ReplayEntry) → Bool
is_marked sender session [] = false
is_marked sender session (none ∷ rest) = is_marked sender session rest
is_marked sender session (some entry ∷ rest) =
    ((entry.sender == sender) && (entry.session == session)) || is_marked sender session rest

-- The first vacant place, taken; `none` when there is none.
unfoldable pub occupy : ReplayEntry → List (Option ReplayEntry) → Option (List (Option ReplayEntry))
occupy entry [] = none
occupy entry (none ∷ rest) = some (some entry ∷ rest)
occupy entry (some other ∷ rest) = elim (occupy entry rest) [
  | none ↦ none
  | some rest' ↦ some (some other ∷ rest')
]

unfoldable pub check_and_mark :
    AgentId → SessionId → ℕ → FixedReplayCache → FixedReplayCache × Result Error (Unit {0})
check_and_mark sender session now_seconds c =
    let live = expire now_seconds c.entries in
    if is_marked sender session live
    then (record c { entries = live }, err replay)
    else elim (occupy
        (record {
          sender = sender;
          session = session;
          expires_at = saturating_add now_seconds c.ttl_seconds;
        })
        live) [
          | none ↦ (record c { entries = live }, err capacity)
          | some entries ↦ (record c { entries = entries }, ok tt)
        ]
