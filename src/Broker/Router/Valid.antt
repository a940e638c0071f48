-- ===== src/Broker/Router/Valid.antt =====
-- The invariant of the router's state.
use secure_pub_sub.Prelude.{
  ℕ, ◌≤◌, ◌<◌, ◌≡◌, [], none, some, arith, nat_eq, length, ℕ-Eq, List-Eq, Bool-cases, inl, inr,
}
use secure_pub_sub.Prelude.Map
use secure_pub_sub.Prelude.Map.{
  IsMap, get-insert, get-remove, insert-IsMap, remove-IsMap, length-insert, length-remove,
}
use secure_pub_sub.Protocol.Types.{AgentId, ca_id}
use secure_pub_sub.Broker.Offline.{OfflineStore}
use secure_pub_sub.Broker.Offline.Refines
use secure_pub_sub.Broker.Channel.{Mpsc, IsBounded}
use secure_pub_sub.Broker.Router

module _ (m : Mpsc) (b : IsBounded m) where
  pub record IsValid (r : Router.BrokerRouter m) : Type 0 where
    pub is_map : IsMap r.connections
    pub offline_valid : Refines.IsValid r.offline
    pub no_ca : Map.get ca_id r.connections ≡ none
    pub short : length r.connections ≤ r.maximum
    -- A generation belongs to one connection, and is older than the next one.
    pub known :
        (id : AgentId) (g : ℕ)
        → Map.get id r.connections ≡ some g
        → (g < r.generation) × ((j : AgentId) → Map.get j r.connections ≡ some g → j ≡ id)
    pub opened :
        (id : AgentId) (g : ℕ)
        → Map.get id r.connections ≡ some g
        → (c : m.Channel) × (Map.get g r.channels ≡ some c)
    pub fits :
        (g : ℕ) (c : m.Channel)
        → Map.get g r.channels ≡ some c
        → (b.capacity c ≡ r.online_depth) × (length (b.buffer c) ≤ r.online_depth)
    -- An agent with a connection has no frames in the offline store.
    pub idle :
        (id : AgentId) (g : ℕ) → Map.get id r.connections ≡ some g → Refines.queue r.offline id ≡ []

  module _ (r : Router.BrokerRouter m) (h : IsValid r) where
    pub remove_connection-IsValid :
        (id : AgentId) → IsValid (record r { connections = Map.remove id r.connections })
    remove_connection-IsValid id =
        let still : (j : AgentId) (g : ℕ)
            → Map.get j (Map.remove id r.connections) ≡ some g
            → Map.get j r.connections ≡ some g =
          λ j g e. ground (arith, get-remove id j r.connections h.is_map) in
        record {
          is_map = remove-IsMap id r.connections h.is_map;
          offline_valid = h.offline_valid;
          no_ca = ground (arith, get-remove id ca_id r.connections h.is_map, h.no_ca);
          short = ground (arith, h.short, length-remove id r.connections);
          known = λ j g e.
              let (older, own) = h.known j g (still j g e) in (older, λ i e'. own i (still i g e'));
          opened = λ j g e. h.opened j g (still j g e);
          fits = h.fits;
          idle = λ j g e. h.idle j g (still j g e);
        }

    -- Another channel with room for as many frames in the place of one.
    pub set_channel-IsValid :
        (k : ℕ) (c : m.Channel)
        → b.capacity c ≡ r.online_depth
        → length (b.buffer c) ≤ r.online_depth
        → IsValid (record r { channels = Map.insert k c r.channels })
    set_channel-IsValid k c wide bounded = record {
      is_map = h.is_map;
      offline_valid = h.offline_valid;
      no_ca = h.no_ca;
      short = h.short;
      known = h.known;
      opened = λ id g e. present g (h.opened id g e);
      fits = λ g d e. ground (arith, get-insert k g c r.channels, h.fits g d, wide, bounded);
      idle = h.idle;
    }
      where
        present :
            (g : ℕ)
            → (d : m.Channel) × (Map.get g r.channels ≡ some d)
            → (d : m.Channel) × (Map.get g (Map.insert k c r.channels) ≡ some d)
        present g (d, e) = elim (Bool-cases (nat_eq g k)) [
          | inl t ↦ (c, ground (arith, get-insert k g c r.channels))
          | inr f ↦ (d, ground (arith, get-insert k g c r.channels))
        ]

    -- Another offline store that holds nothing for a connected agent.
    pub set_offline-IsValid :
        (s : OfflineStore)
        → Refines.IsValid s
        → ((id : AgentId) (g : ℕ) → Map.get id r.connections ≡ some g → Refines.queue s id ≡ [])
        → IsValid (record r { offline = s })
    set_offline-IsValid s valid quiet = record {
      is_map = h.is_map;
      offline_valid = valid;
      no_ca = h.no_ca;
      short = h.short;
      known = h.known;
      opened = h.opened;
      fits = h.fits;
      idle = quiet;
    }
