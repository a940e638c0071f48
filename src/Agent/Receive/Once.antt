-- ===== src/Agent/Receive/Once.antt =====
-- `Agent::receive` of implementations/rust/crates/agent-core/src/lib.rs with the `FixedReplayCache`: a
-- frame that was received is not received again.
use secure_pub_sub.Prelude.{
  ℕ, ◌<◌, ◌≡◌, refl, sym, ap, ◌∙◌, inl, inr, List, [], ◌∷◌, Bytes, Result, ok, err, ◌>>◌,
  Result-cases, saturating_add,
}
use secure_pub_sub.Protocol.Types.{HandlerId, Error, replay}
use secure_pub_sub.Protocol.Primitives.{Primitives}
use secure_pub_sub.Agent.Requests.{Agent}
use secure_pub_sub.Agent.Replay.{FixedReplayCache, check_and_mark}
use secure_pub_sub.Agent.Replay.Once.{Deliveries, run, AllBefore, refused_until_expiry}
use secure_pub_sub.Agent.Receive.{Delivery, fixed, inspect, unpack, receive}
use secure_pub_sub.Agent.Receive.Accepted.{receive-refused, receive-inspected}

-- Frames as they come in, each with the handler that it is expected for and its time.
abbrev pub Frames : Type 0
Frames = List (Bytes × HandlerId × ℕ)

abbrev pub AllEarly : ℕ → Frames → Type 0
AllEarly expires [] = Unit {0}
AllEarly expires ((_, _, now) ∷ rest) = (now < expires) × AllEarly expires rest

first-ok {ℓ} :
    {A : Type ℓ} (m : Result Error (Unit {0})) (k : Result Error A) {a : A}
    → m >> k ≡ ok a
    → m ≡ ok tt
first-ok (ok tt) k h = refl
first-ok (err x) k h = absurd (cc)

module _ (p : Primitives) (agent : Agent) where
  -- The cache after all of them, whatever becomes of each.
  unfoldable pub receive_all : Frames → FixedReplayCache → FixedReplayCache
  receive_all [] c = c
  receive_all ((frame, handler, now) ∷ rest) c =
      receive_all rest (receive p agent frame handler fixed now c).0

  -- The frames that pass the checks are those whose sessions are marked.
  receive_all-run :
      (frames : Frames) (c : FixedReplayCache) (expires : ℕ)
      → AllEarly expires frames
      → (deliveries : Deliveries) × (receive_all frames c ≡ run deliveries c)
        × AllBefore expires deliveries
  unfolding receive_all run
  receive_all-run [] c expires early = ([], refl, tt)
  receive_all-run ((frame, handler, now) ∷ rest) c expires early =
      let (deliveries, same, before) =
        receive_all-run rest (receive p agent frame handler fixed now c).0 expires early.1 in
      elim (Result-cases (inspect p agent frame handler)) [
        | inr (x, refused) ↦ (
          deliveries,
          same
              ∙ ap (λ q. run deliveries q.0)
                  (receive-refused p agent frame handler fixed now c x refused),
          before,
        )
        | inl (e, inspected) ↦ (
          (e.sender, e.session_id, now) ∷ deliveries,
          same
              ∙ ap (λ q. run deliveries q.0)
                  (receive-inspected p agent frame handler fixed now c e inspected),
          (early.0, before),
        )
      ]

  -- Once an agent has received a frame as a delivery, the same frame is refused as a replay until the
  -- time to live of its session is over, whatever frames come in between, each before that time.
  pub receive-replayed :
      (frame : Bytes) (handler : HandlerId) (now later : ℕ) (frames : Frames) (c : FixedReplayCache)
      (d : Delivery)
      → (receive p agent frame handler fixed now c).1 ≡ ok d
      → AllEarly (saturating_add now c.ttl_seconds) frames
      → later < saturating_add now c.ttl_seconds
      → (receive p agent frame handler fixed later
          (receive_all frames (receive p agent frame handler fixed now c).0)).1
        ≡ err replay
  receive-replayed frame handler now later frames c d done early l =
      elim (Result-cases (inspect p agent frame handler)) [
        | inr (x, refused) ↦
            absurd (
              cc
                (ap (λ q. q.1) (receive-refused p agent frame handler fixed now c x refused), done))
        | inl (e, inspected) ↦
            let whole = receive-inspected p agent frame handler fixed now c e inspected in
            let state = ap (λ q. q.0) whole in
            let marked : (check_and_mark e.sender e.session_id now c).1 ≡ ok tt =
              first-ok (check_and_mark e.sender e.session_id now c).1 (unpack p agent frame handler)
                (ap (λ q. q.1) (sym whole) ∙ done) in
            let (deliveries, same, before) =
              receive_all-run frames (receive p agent frame handler fixed now c).0
                (saturating_add now c.ttl_seconds) early in
            let again =
              refused_until_expiry e.sender e.session_id now later deliveries c marked before l in
            let cache = same ∙ ap (run deliveries) state in
            ap (λ q. q.1)
              (receive-inspected p agent frame handler fixed later
                (receive_all frames (receive p agent frame handler fixed now c).0) e inspected)
            ∙ ap
                (λ k.
                  (check_and_mark e.sender e.session_id later k).1 >> unpack p agent frame handler)
                cache
            ∙ ap (λ m. m >> unpack p agent frame handler) again
      ]
