-- ===== src/Broker/Router/Interleaved.antt =====
-- The operations of `BrokerRouter` of implementations/rust/crates/broker-core/src/lib.rs that run at the
-- same time, as steps in any order. `route_ca_delivery` is two steps: it gives up the lock on the
-- connections before it stores a frame, and a registration may come in between, whose agent then has
-- a frame in the offline store while it is connected.
use secure_pub_sub.Prelude.{
  ℕ, ◌+◌, ◌<◌, ◌^◌, ◌≡◌, List, ◌∷◌, ◌++◌, Option, some, Bytes, Result, ok, ℕ-Eq, List-Eq,
}
use secure_pub_sub.Prelude.Map
use secure_pub_sub.Protocol.Types.{AgentId}
use secure_pub_sub.Broker.Errors.{RouteError}
use secure_pub_sub.Broker.Channel.{Mpsc}
use secure_pub_sub.Broker.Router
use secure_pub_sub.Broker.Router.{AgentRegistration}

module _ (m : Mpsc) where
  -- The router, and the frames whose deliveries have given up the lock and are still to be stored.
  abbrev pub System : Type 0
  System = Router.BrokerRouter m × List (AgentId × Bytes)

  -- The frame that a delivery has left to be stored.
  abbrev pub left_over :
      AgentId → Result RouteError (Option Bytes) → List (AgentId × Bytes) → List (AgentId × Bytes)
  left_over id (ok (some frame)) tasks = (id, frame) ∷ tasks
  left_over id _ tasks = tasks

  -- One step of one of the tasks that share the router. A registration's number is a `u64`, which is
  -- taken not to run out.
  pub data Step : System → System → Type 0 where
    registers :
        (r : Router.BrokerRouter m) (tasks : List (AgentId × Bytes)) (id : AgentId)
        → r.generation + 1 < 2 ^ 64
        → Step (r, tasks) ((Router.register m id r).0, tasks)
    unregisters :
        (r : Router.BrokerRouter m) (tasks : List (AgentId × Bytes)) (id : AgentId) (g : ℕ)
        → Step (r, tasks) (Router.unregister m id g r, tasks)
    disconnects :
        (r : Router.BrokerRouter m) (tasks : List (AgentId × Bytes)) (g : AgentRegistration)
        (first : Option Bytes)
        → Step (r, tasks) ((Router.disconnect_and_requeue m g first r).0.1, tasks)
    requests :
        (r : Router.BrokerRouter m) (tasks : List (AgentId × Bytes)) (id : AgentId) (frame : Bytes)
        → Step (r, tasks) ((Router.route_agent_request m id frame r).0, tasks)
    sends :
        (r : Router.BrokerRouter m) (tasks : List (AgentId × Bytes)) (id : AgentId) (frame : Bytes)
        → Router.check_delivery m frame ≡ ok id
        → Step
            (r, tasks)
            (
              (Router.send_online m id frame r).0,
              left_over id (Router.send_online m id frame r).1 tasks,
            )
    stores :
        (r : Router.BrokerRouter m) (before : List (AgentId × Bytes)) (id : AgentId) (frame : Bytes)
        (after : List (AgentId × Bytes))
        → Step
            (r, before ++ (id, frame) ∷ after)
            ((Router.store_offline m id frame r).0, before ++ after)
    receives :
        (r : Router.BrokerRouter m) (tasks : List (AgentId × Bytes)) (g : ℕ)
        → Step (r, tasks) (record r { channels = (Router.recv m g r.channels).0 }, tasks)
    closes :
        (r : Router.BrokerRouter m) (tasks : List (AgentId × Bytes)) (g : ℕ) (c : m.Channel)
        → Map.get g r.channels ≡ some c
        → Step (r, tasks) (record r { channels = Map.insert g (m.close c) r.channels }, tasks)
    ca_receives :
        (r : Router.BrokerRouter m) (tasks : List (AgentId × Bytes))
        → Step (r, tasks) (record r { ca = (m.try_recv r.ca).0 }, tasks)
    ca_takes :
        (r : Router.BrokerRouter m) (tasks : List (AgentId × Bytes))
        → Step (r, tasks) ((Router.take_ca_requests m r).0, tasks)
    ca_closes :
        (r : Router.BrokerRouter m) (tasks : List (AgentId × Bytes))
        → Step (r, tasks) (record r { ca = m.close r.ca }, tasks)

  pub data Reach (s : System) : System → Type 0 where
    here : Reach s s
    next : {t u : System} → Reach s t → Step t u → Reach s u
