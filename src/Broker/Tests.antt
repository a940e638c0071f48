-- ===== src/Broker/Tests.antt =====
-- Runs of the broker's operations at concrete inputs, after the tests of
-- implementations/rust/crates/broker-core/src/lib.rs.
use secure_pub_sub.Prelude.{
  ℕ, zero, suc, be_bytes, be_value, ◌≡◌, refl, ap, ◌∙◌, true, ◌&&◌, List, [], ◌∷◌, ◌++◌, some,
  arith, take, Bytes, list_eq, ok, is_ok, if◌then◌else◌, ◌==◌, ℕ-Eq, List-Eq,
}
use secure_pub_sub.Prelude.Map
use secure_pub_sub.Protocol.Types.{AgentId, ca_id, MessageType, publish, publication_response}
use secure_pub_sub.Protocol.Codec.{header_then, parse_envelope}
use secure_pub_sub.Broker.Offline
use secure_pub_sub.Broker.Offline.Refines
use secure_pub_sub.Broker.Offline.Refines.{queue-enqueue, queue-prepend, push_back, push_front}
use secure_pub_sub.Broker.Channel.{queue_mpsc, queue_mpsc-IsBounded}
use secure_pub_sub.Broker.Router
use secure_pub_sub.Broker.Router.{AgentRegistration}
use secure_pub_sub.Broker.Router.Valid.{IsValid}
use secure_pub_sub.Broker.Router.Invariant.{with_offline_store-IsValid}
use secure_pub_sub.Broker.Router.Registered.{register-IsValid}
use secure_pub_sub.Broker.Router.Requeued.{disconnect_and_requeue-IsValid}
use secure_pub_sub.Broker.Router.Mailbox.{waiting, deliver-Joins, IsAlive}
use secure_pub_sub.Broker.Router.Handover.{disconnect-waiting, register-Captured, Captured}
use secure_pub_sub.Broker.Router.Passed.{PassesRequest, request-Passes}
use secure_pub_sub.Broker.Router.Taken.{TakesDelivery, route_ca_delivery-Takes}
use secure_pub_sub.Broker.Router.Interleaved.{Reach, here, next, registers, sends, stores}
use secure_pub_sub.Broker.Router.Kept.{IsKept, IsValid-IsKept, Reach-IsKept}

abbrev id_of : ℕ → AgentId
id_of b = b ∷ b ∷ b ∷ b ∷ b ∷ b ∷ b ∷ b ∷ b ∷ b ∷ b ∷ b ∷ b ∷ b ∷ b ∷ b ∷ []

abbrev alice : AgentId
alice = id_of 1

abbrev store : Offline.OfflineStore
store = Offline.new 3

abbrev four : List Bytes
four = (1 ∷ []) ∷ (2 ∷ []) ∷ (3 ∷ []) ∷ (4 ∷ []) ∷ []

-- A router without connections, and one with a connection of `alice`.
abbrev start : Router.BrokerRouter queue_mpsc
start = Router.with_limits queue_mpsc 4 2 3 4

start-IsValid : IsValid queue_mpsc queue_mpsc-IsBounded start
start-IsValid =
    with_offline_store-IsValid queue_mpsc queue_mpsc-IsBounded 4 2 4 store (Refines.new-IsValid 3)

abbrev one : Router.BrokerRouter queue_mpsc
one = (Router.register queue_mpsc alice start).0

register-Captured_example :
    Captured queue_mpsc queue_mpsc-IsBounded start alice (Router.register queue_mpsc alice start)
register-Captured_example =
    register-Captured queue_mpsc queue_mpsc-IsBounded start alice start-IsValid

one-IsValid : IsValid queue_mpsc queue_mpsc-IsBounded one
unfolding Router.with_offline_store
one-IsValid =
    register-IsValid queue_mpsc queue_mpsc-IsBounded start start-IsValid alice (omega arith)

one-AreAlive : (id : AgentId) → IsAlive queue_mpsc queue_mpsc-IsBounded one id
unfolding Router.register Router.with_offline_store Map.get Map.insert Map.contains_key
    Offline.take_all Offline.new list_eq
one-AreAlive id g c e e' =
    let first : 1 ≡ g = ground arith in
    let found : Map.get 1 one.channels ≡ some c = ap (λ k. Map.get k one.channels) first ∙ e' in
    ground arith

deliver-Joins_example :
    waiting queue_mpsc queue_mpsc-IsBounded (Router.deliver queue_mpsc alice (9 ∷ []) one).0 alice
    ≡ (if is_ok (Router.deliver queue_mpsc alice (9 ∷ []) one).1 && (alice == alice)
        then waiting queue_mpsc queue_mpsc-IsBounded one alice ++ (9 ∷ []) ∷ []
        else waiting queue_mpsc queue_mpsc-IsBounded one alice)
deliver-Joins_example =
    deliver-Joins queue_mpsc queue_mpsc-IsBounded one alice (9 ∷ []) one-IsValid
      (one-AreAlive alice) alice

abbrev first_registration : AgentRegistration
first_registration = record { identity = alice; generation = 1; pending = (5 ∷ []) ∷ [] }

one_live : Router.is_current queue_mpsc alice 1 one ≡ true
unfolding Router.register Router.with_offline_store Map.get Map.insert Map.contains_key
    Offline.take_all Offline.new list_eq
one_live = refl

disconnect_and_requeue-IsValid_example :
    IsValid queue_mpsc queue_mpsc-IsBounded
      (Router.disconnect_and_requeue queue_mpsc first_registration (some (4 ∷ [])) one).0.1
disconnect_and_requeue-IsValid_example =
    disconnect_and_requeue-IsValid queue_mpsc queue_mpsc-IsBounded one one-IsValid
      first_registration (some (4 ∷ []))

disconnect-waiting_example :
    waiting queue_mpsc queue_mpsc-IsBounded
      (Router.disconnect_and_requeue queue_mpsc first_registration (some (4 ∷ [])) one).0.1
      alice
    ≡ (if alice == alice
        then take one.offline.depth
            ((4 ∷ []) ∷ [] ++ ((5 ∷ []) ∷ [] ++ waiting queue_mpsc queue_mpsc-IsBounded one alice))
        else waiting queue_mpsc queue_mpsc-IsBounded one alice)
disconnect-waiting_example =
    disconnect-waiting queue_mpsc queue_mpsc-IsBounded one first_registration (some (4 ∷ [])) alice
      one-IsValid one_live

abbrev zeros : ℕ → Bytes
zeros zero = []
zeros (suc n) = 0 ∷ zeros n

-- A frame with two bytes of ciphertext.
abbrev frame_of : MessageType → AgentId → AgentId → Bytes
frame_of message_type sender recipient =
    header_then
      (record {
        message_type = message_type;
        sender = sender;
        recipient = recipient;
        handler = id_of 3;
        session_id = id_of 4;
        ephemeral_public = zeros 32;
        salt = zeros 32;
      })
      230 2 (zeros 82)

request_passes : Router.check_request queue_mpsc alice (frame_of publish alice ca_id) ≡ ok tt
unfolding Router.check_request parse_envelope list_eq be_bytes be_value
request_passes = refl

delivery_passes :
    Router.check_delivery queue_mpsc (frame_of publication_response ca_id alice) ≡ ok alice
unfolding Router.check_delivery parse_envelope list_eq be_bytes be_value
delivery_passes = refl

request-Passes_example :
    PassesRequest queue_mpsc queue_mpsc-IsBounded alice
      (frame_of publish alice ca_id)
      one
      (Router.route_agent_request queue_mpsc alice (frame_of publish alice ca_id) one)
request-Passes_example =
    request-Passes queue_mpsc queue_mpsc-IsBounded alice (frame_of publish alice ca_id) one

abbrev delivery_frame : Bytes
delivery_frame = frame_of publication_response ca_id alice

route_ca_delivery-Takes_example :
    TakesDelivery queue_mpsc queue_mpsc-IsBounded delivery_frame one
      (Router.route_ca_delivery queue_mpsc delivery_frame one)
route_ca_delivery-Takes_example =
    route_ca_delivery-Takes queue_mpsc queue_mpsc-IsBounded delivery_frame one one-IsValid
      one-AreAlive

-- The CA sends a frame for `alice`, who is not connected; she registers before the frame is stored.
abbrev raced : Router.BrokerRouter queue_mpsc
raced = (Router.store_offline queue_mpsc alice delivery_frame one).0

raced_path : Reach queue_mpsc (start, []) (raced, [])
unfolding Router.send_online Router.with_offline_store Map.get
raced_path =
    next
      (next (next here (sends start [] alice delivery_frame delivery_passes))
        (registers start ((alice, delivery_frame) ∷ []) alice (omega arith)))
      (stores one [] alice delivery_frame [])

-- She is connected, and the frame is in the offline store.
raced-stranded :
    (Map.contains_key alice raced.connections ≡ true)
    × (Refines.queue raced.offline alice ≡ delivery_frame ∷ [])
unfolding Router.register Router.store_offline Router.with_offline_store Map.get Map.insert
    Map.contains_key Map.remove Offline.take_all Offline.enqueue Offline.new list_eq
raced-stranded = (refl, refl)

Reach-IsKept_example : IsKept queue_mpsc queue_mpsc-IsBounded raced
Reach-IsKept_example =
    Reach-IsKept queue_mpsc queue_mpsc-IsBounded (start, []) (raced, [])
      (IsValid-IsKept queue_mpsc queue_mpsc-IsBounded start start-IsValid) raced_path
