-- ===== src/Broker/Router/Drain.antt =====
-- `try_recv` of a registration until nothing is left, as in `disconnect_and_requeue`.
use secure_pub_sub.Prelude.{
  ℕ, zero, suc, ◌+◌, ◌<◌, ◌≡◌, refl, ap, ◌∙◌, subst, false, List, [], ◌∷◌, ◌++◌, Option, none, some,
  arith, nat_eq, length, Bytes, ℕ-Eq,
}
use secure_pub_sub.Prelude.Map
use secure_pub_sub.Prelude.Map.{Map, get-insert, get-insert_self}
use secure_pub_sub.Protocol.Types.{AgentId}
use secure_pub_sub.Broker.Channel.{Mpsc, IsBounded}
use secure_pub_sub.Broker.Router.{AgentRegistration, try_recv, drain, recv}

module _ (m : Mpsc) (b : IsBounded m) where
  abbrev registration : AgentId → ℕ → List Bytes → AgentRegistration
  registration id k pending = record { identity = id; generation = k; pending = pending }

  -- The channel of generation `k` is empty now, and no other changed.
  pub record Emptied (k : ℕ) (wide : ℕ) (channels channels' : Map ℕ m.Channel) : Type 0 where
    pub left : m.Channel
    pub here : Map.get k channels' ≡ some left
    pub same_capacity : b.capacity left ≡ wide
    pub nothing_left : b.buffer left ≡ []
    pub elsewhere : (j : ℕ) → nat_eq j k ≡ false → Map.get j channels' ≡ Map.get j channels

  -- A registration and the channels, drained of these frames.
  abbrev pub Drains :
      AgentId
      → ℕ
      → ℕ
      → Map ℕ m.Channel
      → List Bytes
      → (AgentRegistration × Map ℕ m.Channel) × List Bytes
      → Type 0
  Drains id k wide channels frames d =
      (d.0.0 ≡ registration id k []) × Emptied k wide channels d.0.1 × (d.1 ≡ frames)

  module _ (fuel : ℕ) (g : AgentRegistration) (channels : Map ℕ m.Channel) where
    -- What follows a `try_recv`.
    abbrev next :
        (AgentRegistration × Map ℕ m.Channel) × Option Bytes
        → (AgentRegistration × Map ℕ m.Channel) × List Bytes
    next (rest, none) = (rest, [])
    next (rest, some frame) =
        let (left, frames) = drain m fuel rest.0 rest.1 in (left, frame ∷ frames)

    drain-none :
        (rest : AgentRegistration × Map ℕ m.Channel)
        → try_recv m g channels ≡ (rest, none)
        → drain m (suc fuel) g channels ≡ (rest, [])
    unfolding drain
    drain-none rest e = ap next e

    drain-some :
        (rest : AgentRegistration × Map ℕ m.Channel) (frame : Bytes)
        → try_recv m g channels ≡ (rest, some frame)
        → drain m (suc fuel) g channels
          ≡ ((drain m fuel rest.0 rest.1).0, frame ∷ (drain m fuel rest.0 rest.1).1)
    unfolding drain
    drain-some rest frame e = ap next e

  module _ (id : AgentId) (k : ℕ) (channels : Map ℕ m.Channel) (c : m.Channel)
      (e : Map.get k channels ≡ some c) where
    try_recv_channel :
        try_recv m (registration id k []) channels
        ≡ ((registration id k [], Map.insert k (m.try_recv c).0 channels), (m.try_recv c).1)
    unfolding try_recv recv
    try_recv_channel = rw (try_recv, recv, e) refl

    drain_empty :
        (fuel : ℕ)
        → b.buffer c ≡ []
        → Drains id k
            (b.capacity c)
            channels
            []
            (drain m (suc fuel) (registration id k []) channels)
    drain_empty fuel empty =
        rw
          (drain-none fuel (registration id k []) channels
            (registration id k [], Map.insert k c channels)
            (try_recv_channel
              ∙ ap (λ r. ((registration id k [], Map.insert k r.0 channels), r.1))
                  (b.recv_empty c empty)))
          (
            refl,
            record {
              left = c;
              here = get-insert_self k c channels;
              same_capacity = refl;
              nothing_left = empty;
              elsewhere = λ j f. ground (arith, get-insert k j c channels);
            },
            refl,
          )

    -- One frame more than the rest.
    Drains-next :
        (frame : Bytes) (frames : List Bytes) (c' : m.Channel)
        (d : (AgentRegistration × Map ℕ m.Channel) × List Bytes)
        → b.capacity c' ≡ b.capacity c
        → Drains id k (b.capacity c') (Map.insert k c' channels) frames d
        → Drains id k (b.capacity c) channels (frame ∷ frames) (d.0, frame ∷ d.1)
    Drains-next frame frames c' d same (g, emptied, found) = (
      g,
      record {
        left = emptied.left;
        here = emptied.here;
        same_capacity = emptied.same_capacity ∙ same;
        nothing_left = emptied.nothing_left;
        elsewhere = λ j f. emptied.elsewhere j f ∙ ground (arith, get-insert k j c' channels);
      },
      ap (◌∷◌ frame) found,
    )

  -- With one round more than there are frames, the loop takes them all: first those that were
  -- pending, then those in the channel.
  pub drain-Drains :
      (fuel : ℕ) (id : AgentId) (k : ℕ) (pending : List Bytes) (channels : Map ℕ m.Channel)
      (c : m.Channel)
      → Map.get k channels ≡ some c
      → length pending + length (b.buffer c) < fuel
      → Drains id k
          (b.capacity c)
          channels
          (pending ++ b.buffer c)
          (drain m fuel (registration id k pending) channels)
  unfolding try_recv
  drain-Drains zero id k pending channels c e short = absurd (omega arith)
  drain-Drains (suc fuel) id k (frame ∷ rest) channels c e short =
      rw
        (drain-some fuel (registration id k (frame ∷ rest)) channels
          (registration id k rest, channels) frame refl)
        (let (g, emptied, found) = drain-Drains fuel id k rest channels c e (omega arith) in
          (g, emptied, ap (◌∷◌ frame) found))
  drain-Drains (suc fuel) id k [] channels c e short =
      go (λ channels' c' e' l. drain-Drains fuel id k [] channels' c' e' (omega arith)) (b.buffer c)
        refl
    where
      go :
          ((channels' : Map ℕ m.Channel) (c' : m.Channel)
            → Map.get k channels' ≡ some c'
            → length (b.buffer c') < fuel
            → Drains id k
                (b.capacity c')
                channels'
                (b.buffer c')
                (drain m fuel (registration id k []) channels'))
          → (frames : List Bytes) → b.buffer c ≡ frames
          → Drains id k
              (b.capacity c)
              channels
              (b.buffer c)
              (drain m (suc fuel) (registration id k []) channels)
      go again [] empty = rw empty (drain_empty id k channels c e fuel empty)
      go again (frame ∷ frames) queued =
          let (received, rest, same, _) = b.recv_front c frame frames queued in
          let c' = (m.try_recv c).0 in
          let channels' = Map.insert k c' channels in
          rw
            (
              queued,
              drain-some fuel (registration id k []) channels (registration id k [], channels')
                  frame
                  (try_recv_channel id k channels c e
                    ∙ ap (λ r. ((registration id k [], channels'), r)) received),
            )
            (Drains-next id k channels c e frame frames c' _ same (
              subst
                (λ fs.
                  Drains id k (b.capacity c') channels' fs
                    (drain m fuel (registration id k []) channels'))
                rest
                (again channels' c' (get-insert_self k c' channels)
                  (omega (arith, ap length rest, ap length queued)))))
