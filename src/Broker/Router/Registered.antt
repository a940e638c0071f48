-- ===== src/Broker/Router/Registered.antt =====
-- A registration and its end preserve the router's invariant.
use secure_pub_sub.Prelude.{
  ℕ, ◌+◌, ◌%◌, ◌^◌, ◌≤◌, ◌<◌, ◌≡◌, refl, sym, ap, ◌∙◌, false, ◌||◌, [], none, some, arith, leb,
  nat_eq, nat_eq_iff, length, ok, err, ==_iff, ◌==◌, ℕ-Eq, List-Eq, Bool-cases, ◌⊎◌, inl, inr,
  Option-cases,
}
use secure_pub_sub.Prelude.Map
use secure_pub_sub.Prelude.Map.{
  Map, IsMap, get-insert, get-insert_self, get-remove, insert-IsMap, remove-IsMap, length-insert,
  length-remove,
}
use secure_pub_sub.Protocol.Types.{AgentId, ca_id}
use secure_pub_sub.Broker.Errors.{
  RouteError, reserved_identity, duplicate_connection, connection_limit,
}
use secure_pub_sub.Broker.Offline
use secure_pub_sub.Broker.Offline.{OfflineStore}
use secure_pub_sub.Broker.Offline.Refines
use secure_pub_sub.Broker.Channel.{Mpsc, IsBounded}
use secure_pub_sub.Broker.Router
use secure_pub_sub.Broker.Router.{AgentRegistration}
use secure_pub_sub.Broker.Router.Valid.{IsValid}

module _ (m : Mpsc) (b : IsBounded m) (r : Router.BrokerRouter m) (h : IsValid m b r) where
  module _ (id : AgentId) where
    abbrev pub connected : Map AgentId ℕ
    connected = Map.insert id r.generation r.connections

    abbrev pub opened_channels : Map ℕ m.Channel
    opened_channels = Map.insert r.generation (m.channel r.online_depth) r.channels

    abbrev pub registered : Router.BrokerRouter m
    registered = record r {
      generation = (r.generation + 1) % 2 ^ 64;
      channels = opened_channels;
      connections = connected;
      offline = (Offline.take_all id r.offline).0;
    }

  module _ (id : AgentId) (user : (id == ca_id) ≡ false) (absent : Map.get id r.connections ≡ none)
      (room : length r.connections < r.maximum) (new : r.generation + 1 < 2 ^ 64) where
    -- A connection is the new one, or an older one.
    connected-cases :
        (j : AgentId) (g : ℕ)
        → Map.get j (connected id) ≡ some g
        → ((j ≡ id) × (g ≡ r.generation))
          ⊎ (((j == id) ≡ false) × (Map.get j r.connections ≡ some g))
    connected-cases j g e = elim (Bool-cases (j == id)) [
      | inl t ↦ inl (ground (arith, get-insert id j r.generation r.connections, ==_iff j id))
      | inr f ↦ inr (ground (arith, get-insert id j r.generation r.connections))
    ]

    known' :
        (j : AgentId) (g : ℕ)
        → Map.get j (connected id) ≡ some g
        → (g < (registered id).generation)
          × ((i : AgentId) → Map.get i (connected id) ≡ some g → i ≡ j)
    known' j g e = elim (connected-cases j g e) [
      | inl (same, newest) ↦ (
        omega (arith, newest, new),
        λ i e'. elim (connected-cases i g e') [
          | inl (same', _) ↦ same' ∙ sym same
          | inr (_, old) ↦ absurd (omega (arith, (h.known i g old).0, newest))
        ],
      )
      | inr (_, old) ↦
          let (older, own) = h.known j g old in
          (
            omega (arith, older, new),
            λ i e'. elim (connected-cases i g e') [
              | inl (_, newest) ↦ absurd (omega (arith, older, newest))
              | inr (_, old') ↦ own i old'
            ],
          )
    ]

    opened' :
        (j : AgentId) (g : ℕ)
        → Map.get j (connected id) ≡ some g
        → (c : m.Channel) × (Map.get g (opened_channels id) ≡ some c)
    opened' j g e = elim (connected-cases j g e) [
      | inl (_, same) ↦
          (m.channel r.online_depth, rw same (get-insert_self r.generation _ r.channels))
      | inr (_, old) ↦
          let (c, e') = h.opened j g old in
          (
            c,
            ground (
              arith,
              get-insert r.generation g (m.channel r.online_depth) r.channels,
              (h.known j g old).0,
              nat_eq_iff g r.generation,
            ),
          )
    ]

    fits' :
        (g : ℕ) (c : m.Channel)
        → Map.get g (opened_channels id) ≡ some c
        → (b.capacity c ≡ r.online_depth) × (length (b.buffer c) ≤ r.online_depth)
    fits' g c e = ground (
      arith,
      get-insert r.generation g (m.channel r.online_depth) r.channels,
      h.fits g c,
      b.capacity-channel r.online_depth,
      ap length (b.buffer-channel r.online_depth),
    )

    idle' :
        (j : AgentId) (g : ℕ)
        → Map.get j (connected id) ≡ some g
        → Refines.queue (registered id).offline j ≡ []
    idle' j g e =
        (Refines.queue-take_all r.offline h.offline_valid id j).0 ∙ elim (connected-cases j g e) [
          | inl (same, _) ↦ ground (arith, ==_iff j id)
          | inr (f, old) ↦ ground (arith, h.idle j g old)
        ]

    registered-IsValid : IsValid m b (registered id)
    registered-IsValid = record {
      is_map = insert-IsMap id r.generation r.connections h.is_map;
      offline_valid = Refines.take_all-IsValid r.offline h.offline_valid id;
      no_ca = ground (
        arith,
        get-insert id ca_id r.generation r.connections,
        ==_iff ca_id id,
        ==_iff id ca_id,
        h.no_ca,
      );
      short = ground (arith, length-insert id r.generation r.connections);
      known = known';
      opened = opened';
      fits = fits';
      idle = idle';
    }

  -- A registration is refused, or opens a new channel for an agent that has no connection.
  pub register-cases :
      (id : AgentId)
      → ((e : RouteError) × (Router.register m id r ≡ (r, err e)))
        ⊎ (((id == ca_id) ≡ false)
            × (Map.get id r.connections ≡ none)
            × (length r.connections < r.maximum)
            × (Router.register m id r ≡ (
              registered id,
              ok (record {
                identity = id;
                generation = r.generation;
                pending = (Offline.take_all id r.offline).1;
              }),
            )))
  unfolding Router.register Map.contains_key
  register-cases id = elim (Bool-cases (id == ca_id)) [
    | inl e ↦ inl (reserved_identity, rw e refl)
    | inr user ↦ elim (Bool-cases (nat_eq r.maximum 0 || nat_eq r.online_depth 0)) [
      | inl e ↦ inl (connection_limit, rw (user, e) refl)
      | inr e ↦ elim (Option-cases (Map.get id r.connections)) [
        | inr (_, present) ↦ inl (duplicate_connection, rw (user, e, present) refl)
        | inl absent ↦ elim (Bool-cases (leb r.maximum (length r.connections))) [
          | inl l ↦ inl (connection_limit, rw (user, e, absent, l) refl)
          | inr l ↦ inr (user, absent, ground arith, rw (user, e, absent, l) refl)
        ]
      ]
    ]
  ]

  -- A registration preserves the invariant of the router, as long as the counter of the generations
  -- does not wrap around.
  pub register-IsValid :
      (id : AgentId) → r.generation + 1 < 2 ^ 64 → IsValid m b (Router.register m id r).0
  register-IsValid id new = elim (register-cases id) [
    | inl (_, e) ↦ rw e h
    | inr (user, absent, room, e) ↦ rw e (registered-IsValid id user absent room new)
  ]
