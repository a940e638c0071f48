-- ===== src/Lib.antt =====
-- SecurePubSub: agents publish and subscribe through a broker that they need not trust, and a
-- certificate authority (the CA) decides who receives what.
--
-- The program's parts, under implementations/rust/crates, and the modules that model them:
--
-- - protocol-core: the wire format. Protocol/Types (types.rs) has the constants and enumerations,
--   Protocol/Codec (codec.rs) `encode_header` and `parse_envelope`. For payload.rs, Protocol/Values
--   has the values and `compare` (Order: what its operators mean), Protocol/Cursor the parser's cursor, Protocol/Environment
--   `EnvironmentRef`, its iterator and `PredicateRef::evaluate`, Protocol/Operation
--   `parse_operation`, Protocol/Writer the writer and Protocol/Encode the `encode_*` functions.
--   Protocol/Primitives is the interface of the cryptographic crates, with a concrete instance
--   (Toy), and Protocol/Crypto (crypto.rs) the key derivation, `seal_in_place` and `open_in_place`.
-- - infrastructure-link: the link between the broker and the CA. Link/Codec has `encode` and
--   `decode`, Link/Auth the challenge response, Link/Pending `PendingFrames`, Link/Dedup
--   `DedupWindow`.
-- - broker-core: Broker/Offline is `MemoryOfflineQueueStore`, Broker/Router `BrokerRouter` and
--   `AgentRegistration`; below it, Mailbox and Handover the frames that wait for an agent, Access,
--   Passed and Taken what is let through, Valid, Invariant, Registered and Requeued the invariant,
--   Interleaved and Kept the operations that run at the same time.
-- - ca-core: Ca/Replay is `ReplayCache`, Ca/Store `MemoryStore`, Ca/Policy with Ca/Values
--   `StaticEnvironmentPolicy`, Ca/Guard the trait `EnvironmentPolicy` and its implementations.
--   Ca/Handler has runs over the CA's state with errors, in which Ca/Process states
--   `CertificateAuthority::process` and `delivery`; below it, Served is the invariant of the CA's
--   state, Rule and RoundRule how a run keeps it, Admission the checks before the state is touched,
--   Sessions and Replayed histories of requests, Round, Ahead, Rounds and Publication the deliveries
--   of a publication, Delivered one delivery at its recipient.
-- - agent-core: Agent/Replay is `FixedReplayCache`, Agent/Requests the request builders of `Agent`,
--   Agent/Receive `receive`, and Agent/Receive/Waiting `subscribe_once` and `subscribe_permanent`.
--
-- An agent seals an operation in an envelope and sends it to the broker, which passes it to the CA
-- (`route_agent_request`) over the link, where frames are kept until they are acknowledged and
-- duplicates are dropped. The CA verifies the signature, checks the session (`ReplayCache`), opens
-- and parses the operation, and consults the policy and the store. Its deliveries come back over the
-- link to the broker, which gives each to the recipient's connection or keeps it for the recipient's
-- next one (`route_ca_delivery`); there `receive` checks, opens and parses it. Agent/Requests/Dispatched and
-- Agent/Receive/Delivered compose the two sides.
--
-- How code is translated. A method that changes its object takes the old state and returns the new
-- one beside its result; `Result` is Prelude/Fallible, with `?` as the bind of do blocks. Bytes are
-- natural numbers, and where a theorem needs it `AreBytes` says that they are below 256; integers
-- are natural numbers with the checks, the saturation (`saturating_add`) and the wrap-around
-- (the router's generation) of the code written out. An `i64` is the integer that its 64 bits
-- stand for. `BTreeMap` and `BTreeSet` are association lists (Prelude/Map); no modelled result shows
-- the order of their keys, except the stable sort of a bucket, which is written out. A `usize` has
-- 64 bits, so sums of lengths that the code checks do not overflow.
--
-- Concurrency. `register`, `unregister` and `disconnect_and_requeue` hold the lock on the router's
-- connections throughout, and are one step each. `route_ca_delivery` gives that lock up before it
-- stores a frame: it is two functions, `send_online` and `store_offline`, and `deliver` and
-- `route_ca_delivery` run them with nothing in between. Broker/Router/Interleaved has all the
-- operations' steps in any order; Broker/Router/Kept has the invariant that they keep together. It
-- leaves out that a connected agent has nothing in the offline store, which Broker/Router/Valid adds
-- for a router on which deliveries are undisturbed: Broker/Tests has a registration between the two
-- parts of a delivery, after which the frame is in the store of a connected agent. The CA's `process`
-- holds no lock from one call of its store to the next; the model runs one request at a time.
--
-- Parameters. The broker's channels are those of tokio: Broker/Channel has their operations as an
-- interface, and what their documentation says as a record of laws, with an instance that keeps
-- the frames in a list. The digest of the link's authentication is a parameter. The cryptographic
-- primitives are an interface whose documented behaviour (agreement, verification of what was
-- signed, decryption of what was encrypted, lengths) is the record `IsSound`, which says
-- nothing of secrecy or unforgeability; and the random generator is one of which `Fills` says that it
-- fills the arrays it is given. The agent's transport and clock are one interface (`Platform`),
-- and its replay protection another, of which `FixedReplayCache` is an instance; nothing is assumed
-- of either.
--
-- Bounds and fuel. Loops over counts and lists are structural. `disconnect_and_requeue` receives in
-- a loop until nothing is left: the model goes one round further than the registration's pending
-- frames and the capacity of its channel, and Broker/Router/Drain shows that this empties both.
-- The loop of a permanent subscription, which goes on for ever, is stated for every number of rounds.
--
-- Not modelled: requests that the CA works on at the same time; the
-- snapshots of ca-core; the values that are copied for storage adapters in agent-core; the bytes that
-- a failing call leaves in its output; usecase-models; and the crates and applications around
-- sockets, files and tasks (transport, embassy-transport, app-common, apps).
pub mod Agent
pub mod Broker
pub mod Ca
pub mod Link
pub mod Prelude
pub mod Protocol
