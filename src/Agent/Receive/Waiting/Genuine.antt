-- ===== src/Agent/Receive/Waiting/Genuine.antt =====
-- What the subscriptions of implementations/rust/crates/agent-core/src/lib.rs deliver, on every platform.
use secure_pub_sub.Prelude.{
  ℕ, zero, suc, ◌≤◌, ◌≡◌, ◌⊎◌, inl, inr, refl, sym, ap, subst, ◌∙◌, arith, true, false, Bool-cases,
  List, [], ◌∷◌, All, Option, none, some, nat_eq, ==_iff, leb, length, take, Bytes, Result, ok, err,
  Result-cases, ok-injective, ℕ-Eq, List-Eq,
}
use secure_pub_sub.Protocol.Types.{TypeId, HandlerId, Error, oversized, publication_response}
use secure_pub_sub.Protocol.Values.{ClauseRef}
use secure_pub_sub.Protocol.Codec.{EnvelopeRef, parse_envelope}
use secure_pub_sub.Protocol.Operation.{parse_operation}
use secure_pub_sub.Protocol.Operation as Operation
use secure_pub_sub.Protocol.Primitives.{Primitives, CryptoRandom}
use secure_pub_sub.Protocol.Crypto.{open_in_place}
use secure_pub_sub.Agent.Requests.{Agent, subscribe_permanent_into}
use secure_pub_sub.Agent.Receive.{ReplayProtector, Delivery, receive}
use secure_pub_sub.Agent.Receive.Accepted.{IsResponse, receive-IsResponse}
use secure_pub_sub.Agent.Receive.Waiting.{
  Platform, SubscriptionError, protocol, transport, expect_type, Ends, await_delivery, listen,
  send_request, subscribe_permanent,
}

expect_type-eq-ok :
    {F : Type 0} (type_id : TypeId) (got : Result Error Delivery) (d : Delivery)
    → expect_type {F = F} type_id got ≡ ok d
    → (got ≡ ok d) × (d.type_id ≡ type_id)
expect_type-eq-ok {F} type_id (err e) d h = absurd (cc)
expect_type-eq-ok {F} type_id (ok delivery) d h =
    elim (Bool-cases (nat_eq delivery.type_id type_id)) [
      | inr other ↦ absurd (ground arith)
      | inl same ↦
          let whole : delivery ≡ d = ok-injective (sym (rw same refl) ∙ h) in
          (
            ap (λ x. ok x) whole,
            subst (λ (x : Delivery). x.type_id ≡ type_id) whole
                ((==_iff delivery.type_id type_id).0 same),
          )
    ]

module _ (p : Primitives) (agent : Agent) (type_id : TypeId) (handler : HandlerId) where
  -- A delivery of the subscribed type and handler that some frame carried: an envelope of a response for the
  -- agent and the handler, signed by the authority, that opens to the delivery's contents.
  pub record IsGenuine (d : Delivery) : Type 0 where
    pub typed : d.type_id ≡ type_id
    pub handled : d.handler ≡ handler
    pub frame : Bytes
    pub envelope : EnvelopeRef
    pub parsed : parse_envelope frame ≡ ok envelope
    pub response : IsResponse p agent handler envelope
    pub plaintext : Bytes
    pub opened :
        open_in_place p frame agent.id publication_response agent.ca.ed25519 agent.keys.x25519
        ≡ ok plaintext
    pub contents :
        parse_operation plaintext ≡ ok (Operation.publication_response type_id d.publisher d.value)

  module _ (s : ReplayProtector) (t : Platform) where
    module _ (room : ℕ) (state : t.State) (replay : s.State) where
      await-failed :
          (x : t.Failure)
          → (t.receive room state).1 ≡ err x
          → (await_delivery p agent s t type_id handler room (state, replay)).1 ≡ err (transport x)
      unfolding await_delivery
      await-failed x e = rw (await_delivery, e) refl

      module _ (buffer : Bytes) (n : ℕ) (found : (t.receive room state).1 ≡ ok (buffer, n)) where
        await-long :
            leb n room ≡ false
            → (await_delivery p agent s t type_id handler room (state, replay)).1
              ≡ err (protocol oversized)
        unfolding await_delivery
        await-long long = rw (await_delivery, found, long) refl

        await-fits :
            leb n room ≡ true
            → (await_delivery p agent s t type_id handler room (state, replay)).1
              ≡ expect_type type_id
                  (receive p agent
                    (take n buffer)
                    handler
                    s
                    (t.now_seconds (t.receive room state).0)
                    replay).1
        unfolding await_delivery
        await-fits fits = rw (await_delivery, found, fits) refl

    await-IsGenuine :
        (room : ℕ) (ends : Ends p agent s t) (d : Delivery)
        → (await_delivery p agent s t type_id handler room ends).1 ≡ ok d
        → IsGenuine d
    await-IsGenuine room (state, replay) d h = elim (Result-cases (t.receive room state).1) [
      | inr (x, failed) ↦ absurd (cc (await-failed room state replay x failed, h))
      | inl ((buffer, n), found) ↦ elim (Bool-cases (leb n room)) [
        | inr long ↦ absurd (cc (await-long room state replay buffer n found long, h))
        | inl fits ↦
            let (got, typed) =
              expect_type-eq-ok type_id
                (receive p agent (take n buffer) handler s (t.now_seconds (t.receive room state).0)
                  replay).1
                d (sym (await-fits room state replay buffer n found fits) ∙ h) in
            let (e, parsed, response, _, plaintext, opened, contents, handled) =
              receive-IsResponse p agent (take n buffer) handler s
                (t.now_seconds (t.receive room state).0) replay d got in
            record {
              typed = typed;
              handled = handled;
              frame = take n buffer;
              envelope = e;
              parsed = parsed;
              response = response;
              plaintext = plaintext;
              opened = opened;
              contents =
                  contents
                  ∙ ap (λ k. ok (Operation.publication_response k d.publisher d.value)) typed;
            }
      ]
    ]

    -- The end of a loop, after some number of its rounds at most.
    abbrev pub Ended : ℕ → List Delivery → Option (SubscriptionError t.Failure) → Type 0
    Ended rounds deliveries ended =
        ((ended ≡ none) × (length deliveries ≡ rounds))
        ⊎ ((x : SubscriptionError t.Failure) × (ended ≡ some x) × (length deliveries ≤ rounds))

    Ended-suc :
        (n : ℕ) (d : Delivery) (later : List Delivery)
        (ended : Option (SubscriptionError t.Failure))
        → Ended n later ended
        → Ended (suc n) (d ∷ later) ended
    Ended-suc n d later ended (inl (going, size)) = inl (going, ap suc size)
    Ended-suc n d later ended (inr (x, e, size)) = inr (x, e, omega (arith, size))

    -- The deliveries of some rounds, and the end of the loop.
    pub record IsOutcome (rounds : ℕ) (deliveries : List Delivery)
        (ended : Option (SubscriptionError t.Failure)) : Type 0 where
      pub genuine : All IsGenuine deliveries
      pub end : Ended rounds deliveries ended

    abbrev Outcome {ℓ} :
        {S : Type ℓ} → ℕ → S × List Delivery × Option (SubscriptionError t.Failure) → Type 0
    Outcome rounds (_, deliveries, ended) = IsOutcome rounds deliveries ended

    module _ (room n : ℕ) (ends : Ends p agent s t) where
      abbrev after : Ends p agent s t
      after = (await_delivery p agent s t type_id handler room ends).0

      listen-failed :
          (x : SubscriptionError t.Failure)
          → (await_delivery p agent s t type_id handler room ends).1 ≡ err x
          → listen p agent s t type_id handler room (suc n) ends ≡ (after, [], some x)
      unfolding listen
      listen-failed x e = rw (listen, e) refl

      listen-delivered :
          (d : Delivery)
          → (await_delivery p agent s t type_id handler room ends).1 ≡ ok d
          → listen p agent s t type_id handler room (suc n) ends ≡ (
            (listen p agent s t type_id handler room n after).0,
            d ∷ (listen p agent s t type_id handler room n after).1,
            (listen p agent s t type_id handler room n after).2,
          )
      unfolding listen
      listen-delivered d e = rw (listen, e) refl

    listen-AreGenuine :
        (room n : ℕ) (ends : Ends p agent s t)
        → Outcome n (listen p agent s t type_id handler room n ends)
    unfolding listen
    listen-AreGenuine room zero ends = record { genuine = tt; end = inl (refl, refl) }
    listen-AreGenuine room (suc n) ends =
        elim (Result-cases (await_delivery p agent s t type_id handler room ends).1) [
          | inr (x, e) ↦
              subst (Outcome (suc n)) (sym (listen-failed room n ends x e))
                (record { genuine = tt; end = inr (x, refl, omega arith) })
          | inl (d, e) ↦
              let later =
                listen-AreGenuine room n (await_delivery p agent s t type_id handler room ends).0 in
              subst (Outcome (suc n)) (sym (listen-delivered room n ends d e)) (record {
                genuine = (await-IsGenuine room ends d e, later.genuine);
                end = Ended-suc n d _ _ later.end;
              })
        ]

    module _ (r : CryptoRandom) (predicate : List ClauseRef) (frame : Bytes) (rounds : ℕ)
        (rng : r.State) (state : t.State) (replay : s.State) where
      abbrev request : r.State × Result Error (Bytes × ℕ)
      request = subscribe_permanent_into p r agent frame type_id handler predicate rng

      abbrev sent : t.State × Result (SubscriptionError t.Failure) (Unit {0})
      sent = send_request t request.1 state

      subscribe-failed :
          (x : SubscriptionError t.Failure)
          → sent.1 ≡ err x
          → subscribe_permanent p agent s t r type_id handler predicate frame rounds
              (rng, (state, replay))
            ≡ ((request.0, (sent.0, replay)), [], some x)
      unfolding subscribe_permanent
      subscribe-failed x e = rw (subscribe_permanent, e) refl

      abbrev heard : Ends p agent s t × List Delivery × Option (SubscriptionError t.Failure)
      heard = listen p agent s t type_id handler (length frame) rounds (sent.0, replay)

      subscribe-sent :
          sent.1 ≡ ok tt
          → subscribe_permanent p agent s t r type_id handler predicate frame rounds
              (rng, (state, replay))
            ≡ ((request.0, heard.0), heard.1, heard.2)
      unfolding subscribe_permanent
      subscribe-sent e = rw (subscribe_permanent, e) refl

    -- On every platform and for every replay protection, a permanent subscription that is followed
    -- for some rounds gives its handler nothing but genuine deliveries: of its type and its handler,
    -- with the contents of a frame that is an envelope of a response for the agent and the handler,
    -- signed by the authority. Either it still goes on and each round has given one delivery, or it has
    -- ended with an error.
    pub subscribe_permanent-AreGenuine :
        (r : CryptoRandom) (predicate : List ClauseRef) (frame : Bytes) (rounds : ℕ)
        (world : r.State × Ends p agent s t)
        → IsOutcome rounds
            (subscribe_permanent p agent s t r type_id handler predicate frame rounds world).1
            (subscribe_permanent p agent s t r type_id handler predicate frame rounds world).2
    unfolding subscribe_permanent
    subscribe_permanent-AreGenuine r predicate frame rounds (rng, (state, replay)) =
        let request = subscribe_permanent_into p r agent frame type_id handler predicate rng in
        let sent = send_request t request.1 state in
        elim (Result-cases sent.1) [
          | inr (x, e) ↦
              subst (Outcome rounds)
                (sym (subscribe-failed r predicate frame rounds rng state replay x e))
                (record { genuine = tt; end = inr (x, refl, omega arith) })
          | inl (tt, e) ↦
              subst (Outcome rounds)
                (sym (subscribe-sent r predicate frame rounds rng state replay e))
                (listen-AreGenuine (length frame) rounds (sent.0, replay))
        ]
