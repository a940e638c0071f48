-- ===== src/Broker/Router.antt =====
-- `BrokerRouter` and `AgentRegistration` of implementations/rust/crates/broker-core/src/lib.rs.
--
-- A connection holds the sender, and a registration the receiver, of one channel: the channels
-- stand in the router's state under the generation of the registration.
pub mod Valid
pub mod Invariant
pub mod Mailbox
pub mod Access
pub mod Handover
pub mod Requeued
pub mod Registered
pub mod Drain
pub mod Sends
pub mod Passed
pub mod Taken
pub mod Interleaved
pub mod Kept
use secure_pub_sub.Prelude.{
  ℕ, zero, suc, ◌+◌, ◌%◌, ◌^◌, Bool, true, false, ◌&&◌, ◌||◌, not, List, [], ◌∷◌, ◌++◌, Option,
  none, some, leb, nat_eq, length, Bytes, Result, ok, err, is_some, if◌then◌else◌, ◌==◌, ℕ-Eq,
  List-Eq,
}
use secure_pub_sub.Prelude.Map
use secure_pub_sub.Prelude.Map.{Map}
use secure_pub_sub.Protocol.Types.{
  AgentId, ca_id, MessageType, set_environment, subscribe, subscribe_permanent, publish,
  publication_response, message_eq, bad_signature, wrong_message_type,
}
use secure_pub_sub.Protocol.Codec.{EnvelopeRef, parse_envelope}
use secure_pub_sub.Broker.Errors.{
  RouteError, protocol, reserved_identity, duplicate_connection, connection_limit, ca_queue_full,
  online_queue_full,
}
use secure_pub_sub.Broker.Offline
use secure_pub_sub.Broker.Offline.{OfflineStore}
use secure_pub_sub.Broker.Channel.{Mpsc, TrySendError, full, closed}

pub record AgentRegistration : Type 0 where
  pub identity : AgentId
  pub generation : ℕ
  pub pending : List Bytes

abbrev pub default_ca_queue_depth : ℕ
default_ca_queue_depth = 256

-- An Agent's message that the broker passes to the CA.
abbrev pub is_request : MessageType → Bool
is_request publication_response = false
is_request _ = true

module _ (m : Mpsc) where
  pub record BrokerRouter : Type 0 where
    pub connections : Map AgentId ℕ
    pub maximum : ℕ
    pub online_depth : ℕ
    pub offline : OfflineStore
    pub ca_depth : ℕ
    pub generation : ℕ
    pub ca : m.Channel
    pub ca_taken : Bool
    pub channels : Map ℕ m.Channel

  -- `ca_queue_depth.max(1)`
  unfoldable pub with_offline_store : ℕ → ℕ → ℕ → OfflineStore → BrokerRouter
  with_offline_store maximum online_depth ca_queue_depth offline = record {
    connections = [];
    maximum = maximum;
    online_depth = online_depth;
    offline = offline;
    ca_depth = ca_queue_depth;
    generation = 1;
    ca = m.channel (if nat_eq ca_queue_depth 0 then 1 else ca_queue_depth);
    ca_taken = false;
    channels = [];
  }

  abbrev pub with_limits : ℕ → ℕ → ℕ → ℕ → BrokerRouter
  with_limits maximum online_depth offline_depth ca_queue_depth =
      with_offline_store maximum online_depth ca_queue_depth (Offline.new offline_depth)

  abbrev pub new : ℕ → ℕ → BrokerRouter
  new maximum queue_depth = with_limits maximum queue_depth queue_depth default_ca_queue_depth

  -- The receiver is given out once.
  unfoldable pub take_ca_requests : BrokerRouter → BrokerRouter × Bool
  take_ca_requests r = (record r { ca_taken = true }, not r.ca_taken)

  -- `fetch_add` wraps around.
  unfoldable pub register :
      AgentId → BrokerRouter → BrokerRouter × Result RouteError AgentRegistration
  register identity r =
      if identity == ca_id
      then (r, err reserved_identity)
      else if nat_eq r.maximum 0 || nat_eq r.online_depth 0
      then (r, err connection_limit)
      else if Map.contains_key identity r.connections
      then (r, err duplicate_connection)
      else if leb r.maximum (length r.connections)
      then (r, err connection_limit)
      else let taken = Offline.take_all identity r.offline in
        (
          record r {
            generation = (r.generation + 1) % 2 ^ 64;
            channels = Map.insert r.generation (m.channel r.online_depth) r.channels;
            connections = Map.insert identity r.generation r.connections;
            offline = taken.0;
          },
          ok (record { identity = identity; generation = r.generation; pending = taken.1 }),
        )

  -- The identity has a connection of this generation.
  abbrev pub is_current : AgentId → ℕ → BrokerRouter → Bool
  is_current identity generation r = elim (Map.get identity r.connections) [
    | none ↦ false
    | some current ↦ nat_eq current generation
  ]

  unfoldable pub unregister : AgentId → ℕ → BrokerRouter → BrokerRouter
  unregister identity generation r =
      if is_current identity generation r
      then record r { connections = Map.remove identity r.connections }
      else r

  -- `try_recv` on the channels, where a registration's channel is found under its generation.
  unfoldable pub recv : ℕ → Map ℕ m.Channel → Map ℕ m.Channel × Option Bytes
  recv generation channels = elim (Map.get generation channels) [
    | none ↦ (channels, none)
    | some c ↦ (Map.insert generation (m.try_recv c).0 channels, (m.try_recv c).1)
  ]

  unfoldable pub try_recv :
      AgentRegistration → Map ℕ m.Channel → (AgentRegistration × Map ℕ m.Channel) × Option Bytes
  unfolding recv
  try_recv g channels = elim g.pending [
    | [] ↦ let (channels', frame) = recv g.generation channels in ((g, channels'), frame)
    | frame ∷ rest ↦ ((record g { pending = rest }, channels), some frame)
  ]

  -- `while let Some(frame) = registration.try_recv()`, for at most `fuel` frames.
  unfoldable pub drain :
      ℕ → AgentRegistration → Map ℕ m.Channel → (AgentRegistration × Map ℕ m.Channel) × List Bytes
  drain zero g channels = ((g, channels), [])
  drain (suc fuel) g channels =
      let ((g', channels'), next) = try_recv g channels in
      elim next [
        | none ↦ ((g', channels'), [])
        | some frame ↦ let (left, frames) = drain fuel g' channels' in (left, frame ∷ frames)
      ]

  abbrev pub first_frame : Option Bytes → List Bytes
  first_frame none = []
  first_frame (some frame) = frame ∷ []

  -- The channel holds at most `online_depth` frames, and one more round finds it empty.
  unfoldable pub disconnect_and_requeue :
      AgentRegistration
      → Option Bytes
      → BrokerRouter
      → (AgentRegistration × BrokerRouter) × Result RouteError (Unit {0})
  disconnect_and_requeue g first r =
      if not (is_current g.identity g.generation r)
      then ((g, r), ok tt)
      else let removed = Map.remove g.identity r.connections in
        let ((g', channels'), frames) =
          drain (suc (length g.pending + r.online_depth)) g r.channels in
        let (offline', result) =
          Offline.prepend g.identity (first_frame first ++ frames) r.offline in
        ((g', record r { connections = removed; channels = channels'; offline = offline' }), result)

  -- The checks of `route_agent_request`.
  unfoldable pub check_request : AgentId → Bytes → Result RouteError (Unit {0})
  check_request connection_identity frame = elim (parse_envelope frame) [
    | err e ↦ err (protocol e)
    | ok envelope ↦
        if not (envelope.sender == connection_identity)
        then err (protocol bad_signature)
        else if is_request envelope.message_type
            && (not (envelope.sender == ca_id) && (envelope.recipient == ca_id))
        then ok tt
        else err (protocol wrong_message_type)
  ]

  -- Every error of the channel counts as a full queue.
  unfoldable pub route_agent_request :
      AgentId → Bytes → BrokerRouter → BrokerRouter × Result RouteError (Unit {0})
  route_agent_request connection_identity frame r = elim (check_request connection_identity frame) [
    | err e ↦ (r, err e)
    | ok _ ↦
        if nat_eq r.ca_depth 0
        then (r, err ca_queue_full)
        else let (ca', sent) = m.try_send frame r.ca in
          (record r { ca = ca' }, elim sent [ ok _ ↦ ok tt | err _ ↦ err ca_queue_full ])
  ]

  -- The recipient of a delivery that the CA may send.
  unfoldable pub check_delivery : Bytes → Result RouteError AgentId
  check_delivery frame = elim (parse_envelope frame) [
    | err e ↦ err (protocol e)
    | ok envelope ↦
        if not (envelope.sender == ca_id)
          || ((envelope.recipient == ca_id)
              || not (message_eq envelope.message_type publication_response))
        then err (protocol wrong_message_type)
        else ok envelope.recipient
  ]

  -- The part of `route_ca_delivery` under the lock: the frame goes to the recipient's connection, or,
  -- when there is none or it is closed and is removed, is left to be stored.
  -- A connection holds its sender, so its channel is always there (Router/Valid).
  unfoldable pub send_online :
      AgentId → Bytes → BrokerRouter → BrokerRouter × Result RouteError (Option Bytes)
  send_online recipient frame r = elim (Map.get recipient r.connections) [
    | none ↦ (r, ok (some frame))
    | some g ↦ elim (Map.get g r.channels) [
      | none ↦ (r, ok (some frame))
      | some c ↦
          let (c', sent) = m.try_send frame c in
          let sent_on = record r { channels = Map.insert g c' r.channels } in
          elim sent [
            | ok _ ↦ (sent_on, ok none)
            | err full ↦ (sent_on, err online_queue_full)
            | err closed ↦ (
              record sent_on { connections = Map.remove recipient r.connections },
              ok (some frame),
            )
          ]
    ]
  ]

  -- The part after `drop(state)`.
  unfoldable pub store_offline :
      AgentId → Bytes → BrokerRouter → BrokerRouter × Result RouteError (Unit {0})
  store_offline recipient frame r =
      let (offline', result) = Offline.enqueue recipient frame r.offline in
      (record r { offline = offline' }, result)

  -- What `route_ca_delivery` does once its first part is done.
  abbrev pub after_send :
      AgentId
      → BrokerRouter × Result RouteError (Option Bytes)
      → BrokerRouter × Result RouteError (Unit {0})
  after_send recipient (r, err e) = (r, err e)
  after_send recipient (r, ok none) = (r, ok tt)
  after_send recipient (r, ok (some frame)) = store_offline recipient frame r

  -- The two parts with no other operation between them; with others in between: Router/Interleaved.
  unfoldable pub deliver :
      AgentId → Bytes → BrokerRouter → BrokerRouter × Result RouteError (Unit {0})
  unfolding send_online store_offline
  deliver recipient frame r = after_send recipient (send_online recipient frame r)

  -- Undisturbed, as `deliver`.
  unfoldable pub route_ca_delivery :
      Bytes → BrokerRouter → BrokerRouter × Result RouteError (Unit {0})
  route_ca_delivery frame r = elim (check_delivery frame) [
    | err e ↦ (r, err e)
    | ok recipient ↦ deliver recipient frame r
  ]

  unfoldable pub route :
      AgentId → Bytes → BrokerRouter → BrokerRouter × Result RouteError (Unit {0})
  route connection_identity frame r =
      if connection_identity == ca_id
      then route_ca_delivery frame r
      else route_agent_request connection_identity frame r

  unfoldable pub connection_count : BrokerRouter → ℕ
  connection_count r = length r.connections

  unfoldable pub offline_len : AgentId → BrokerRouter → ℕ
  offline_len identity r = Offline.len identity r.offline
