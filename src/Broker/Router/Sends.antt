-- ===== src/Broker/Router/Sends.antt =====
-- The outcomes of `send_online`, the part of a delivery under the router's lock.
use secure_pub_sub.Prelude.{ℕ, ◌≡◌, refl, ap, none, some, Bytes, ok, err, ℕ-Eq, List-Eq}
use secure_pub_sub.Prelude.Map
use secure_pub_sub.Protocol.Types.{AgentId}
use secure_pub_sub.Broker.Errors.{online_queue_full}
use secure_pub_sub.Broker.Channel.{Mpsc, full, closed}
use secure_pub_sub.Broker.Router

module _ (m : Mpsc) (r : Router.BrokerRouter m) (id : AgentId) (frame : Bytes) where
  pub send-absent :
      Map.get id r.connections ≡ none → Router.send_online m id frame r ≡ (r, ok (some frame))
  unfolding Router.send_online
  send-absent e = rw (Router.send_online, e) refl

  pub deliver-absent :
      Map.get id r.connections ≡ none
      → Router.deliver m id frame r ≡ Router.store_offline m id frame r
  unfolding Router.deliver
  deliver-absent e = ap (Router.after_send m id) (send-absent e)

  module _ (g : ℕ) (c : m.Channel) (e : Map.get id r.connections ≡ some g)
      (e' : Map.get g r.channels ≡ some c) where
    abbrev pub sent_on : Router.BrokerRouter m
    sent_on = record r { channels = Map.insert g (m.try_send frame c).0 r.channels }

    abbrev pub cut_off : Router.BrokerRouter m
    cut_off = record sent_on { connections = Map.remove id r.connections }

    pub send-room :
        (m.try_send frame c).1 ≡ ok tt → Router.send_online m id frame r ≡ (sent_on, ok none)
    unfolding Router.send_online
    send-room k = rw (Router.send_online, e, e', k) refl

    pub send-full :
        (m.try_send frame c).1 ≡ err full
        → Router.send_online m id frame r ≡ (sent_on, err online_queue_full)
    unfolding Router.send_online
    send-full k = rw (Router.send_online, e, e', k) refl

    pub send-closed :
        (m.try_send frame c).1 ≡ err closed
        → Router.send_online m id frame r ≡ (cut_off, ok (some frame))
    unfolding Router.send_online
    send-closed k = rw (Router.send_online, e, e', k) refl

    pub deliver-room :
        (m.try_send frame c).1 ≡ ok tt → Router.deliver m id frame r ≡ (sent_on, ok tt)
    unfolding Router.deliver
    deliver-room k = ap (Router.after_send m id) (send-room k)

    pub deliver-full :
        (m.try_send frame c).1 ≡ err full
        → Router.deliver m id frame r ≡ (sent_on, err online_queue_full)
    unfolding Router.deliver
    deliver-full k = ap (Router.after_send m id) (send-full k)

    pub deliver-closed :
        (m.try_send frame c).1 ≡ err closed
        → Router.deliver m id frame r ≡ Router.store_offline m id frame cut_off
    unfolding Router.deliver
    deliver-closed k = ap (Router.after_send m id) (send-closed k)
