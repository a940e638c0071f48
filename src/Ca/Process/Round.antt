-- ===== src/Ca/Process/Round.antt =====
-- One round of a publication in `CertificateAuthority::process` of
-- implementations/rust/crates/ca-core/src/lib.rs.
use secure_pub_sub.Prelude.{
  ℕ, ◌≡◌, ◌⊎◌, refl, sym, ap, subst, ◌∙◌, Bool, true, false, not, ◌&&◌, List, [], ◌∷◌, Option, some,
  none, is_some, Bytes, Result, ok, err, ok_or, Bool-cases, Option-cases, Result-cases, inl, inr,
  arith, ℕ-Eq, List-Eq, if◌then◌else◌,
}
use secure_pub_sub.Prelude as Prelude
use secure_pub_sub.Prelude.Map
use secure_pub_sub.Prelude.Map.{Map}
use secure_pub_sub.Protocol.Types.{AgentId, TypeId, Error, bad_signature}
use secure_pub_sub.Protocol.Cursor.{PredicateRef}
use secure_pub_sub.Protocol.Environment.{EnvironmentRef, evaluate}
use secure_pub_sub.Protocol.Operation.{parse_operation}
use secure_pub_sub.Protocol.Primitives.{Primitives, CryptoRandom}
use secure_pub_sub.Ca.Store
use secure_pub_sub.Ca.Store.{MemoryStore, PublicKeys, StoredSubscription}
use secure_pub_sub.Ca.Guard.{EnvironmentPolicy}
use secure_pub_sub.Ca.Handler.{Handler, World, lift, pure, read, ◌>>=◌}
use secure_pub_sub.Ca.Process.{
  CaKeys, parse_environment, subscription_predicate, keys_of, claim, delivery, deliver_to,
  with_subscriber, round,
}
use secure_pub_sub.Ca.Process.Served.{IsEntry, IsServed}
use secure_pub_sub.Ca.Process.RoundRule.{delivery-Safe}

module _ (p : Primitives) (r : CryptoRandom) (policy : EnvironmentPolicy) (ca : CaKeys)
    (sender : AgentId) (publisher : EnvironmentRef) (type_id : TypeId) (predicate : PredicateRef)
    (value : Bytes) where
  abbrev pub matches : Result Error PredicateRef → Bool
  matches (ok wanted) = evaluate wanted publisher
  matches (err x) = false

  abbrev pub accepts : AgentId → Result Error EnvironmentRef → Bool
  accepts agent (ok subscriber) =
      evaluate predicate subscriber
      && policy.authorize_delivery sender publisher agent subscriber type_id
  accepts agent (err x) = false

  abbrev pub welcomes : AgentId → Option Bytes → Bool
  welcomes agent none = false
  welcomes agent (some encoded) = accepts agent (parse_environment encoded)

  -- Whether a publication is for a subscription: the subscription's predicate holds of the
  -- publisher's environment, the publication's predicate of the subscriber's, and the policy
  -- authorizes the delivery.
  pub selects : MemoryStore → StoredSubscription → Bool
  selects s e =
      matches (Prelude.◌>>=◌ (parse_operation e.encoded) (subscription_predicate type_id e.kind))
      && welcomes e.subscriber (Store.environment e.subscriber s)

  pub selects-eq :
      (s s' : MemoryStore) (e : StoredSubscription)
      → s.environments ≡ s'.environments
      → selects s e ≡ selects s' e
  unfolding selects Store.environment
  selects-eq s s' e same =
      ap
        (λ m.
          matches
            (Prelude.◌>>=◌ (parse_operation e.encoded) (subscription_predicate type_id e.kind))
          && welcomes e.subscriber (Map.get e.subscriber m))
        same

  -- The sending to a subscriber.
  pub send : StoredSubscription → Handler r (Option Bytes)
  send e = do
    keys ← keys_of e.subscriber
    frame ← delivery p r policy ca sender e.subscriber e.handler type_id value keys.x25519
    claimed ← claim e
    pure (if claimed then some frame else none)

  module _ (directory : Map AgentId PublicKeys) (w : World r)
      (v : IsServed policy directory w.store) (e : StoredSubscription)
      (h : IsEntry w.store type_id e) where
    -- A round sends to the subscription exactly when the publication is for it, and else passes it over.
    pub round-send :
        round p r policy ca sender publisher type_id predicate value e w
        ≡ (if selects w.store e then send e w else (w, ok none))
    unfolding round with_subscriber deliver_to selects send lift pure read ◌>>=◌
    round-send = elim (Bool-cases (evaluate h.predicate publisher)) [
      | inr f ↦ rw (h.encoded, h.matching, f) refl
      | inl t ↦ elim (Option-cases (Store.environment e.subscriber w.store)) [
        | inl n ↦ absurd (cc (h.settled, ap is_some n))
        | inr (encoded, found) ↦
            let setting = v.settings e.subscriber encoded found in
            elim (Bool-cases (evaluate predicate setting.setting)) [
              | inr f ↦ rw (h.encoded, h.matching, t, found, setting.parsed, f) refl
              | inl u ↦
                  elim (Bool-cases (
                    policy.authorize_delivery sender publisher e.subscriber setting.setting
                      type_id)) [
                        | inr f ↦ rw (h.encoded, h.matching, t, found, setting.parsed, u, f) refl
                        | inl d ↦ rw (h.encoded, h.matching, t, found, setting.parsed, u, d) refl
                      ]
            ]
      ]
    ]

  -- A frame that `delivery` makes for a subscription, with the keys of its subscriber.
  pub record IsDelivery (s : MemoryStore) (e : StoredSubscription) (frame : Bytes) : Type 0 where
    pub keys : PublicKeys
    pub known : Store.keys e.subscriber s ≡ ok keys
    pub before : World r
    pub after : World r
    pub made :
        delivery p r policy ca sender e.subscriber e.handler type_id value keys.x25519 before
        ≡ (after, ok frame)

  pub IsDelivery-eq :
      (s s' : MemoryStore) (e : StoredSubscription) (frame : Bytes)
      → s.public_keys ≡ s'.public_keys
      → IsDelivery s e frame
      → IsDelivery s' e frame
  unfolding Store.keys
  IsDelivery-eq s s' e frame same d = record {
    keys = d.keys;
    known = ap (λ m. ok_or (Map.get e.subscriber m) bad_signature) (sym same) ∙ d.known;
    before = d.before;
    after = d.after;
    made = d.made;
  }

  module _ (directory : Map AgentId PublicKeys) (w : World r)
      (v : IsServed policy directory w.store) (e : StoredSubscription)
      (h : IsEntry w.store type_id e) (held : (Store.claim_subscription e w.store).1 ≡ true) where
    known-subscriber : (k : PublicKeys) × (Store.keys e.subscriber w.store ≡ ok k)
    unfolding Store.keys
    known-subscriber = elim (Option-cases (Store.environment e.subscriber w.store)) [
      | inl n ↦ absurd (cc (h.settled, ap is_some n))
      | inr (encoded, found) ↦ elim (Option-cases (Map.get e.subscriber w.store.public_keys)) [
        | inr (k, e) ↦ (k, rw e refl)
        | inl n ↦ absurd (
            cc (
              (v.settings e.subscriber encoded found).known,
              ap (λ d. is_some (Map.get e.subscriber d)) v.provisioned,
              ap is_some n,
            ))
      ]
    ]

    -- Sending either claims the subscription and gives a frame, or fails with the store as it was.
    pub send-cases :
        ((frame : Bytes) × (w' : World r) × IsDelivery w.store e frame
          × (w'.store ≡ (Store.claim_subscription e w.store).0)
          × (send e w ≡ (w', ok (some frame))))
        ⊎ ((x : Error) × (w' : World r) × (w'.store ≡ w.store) × (send e w ≡ (w', err x)))
    unfolding send keys_of claim pure ◌>>=◌
    send-cases =
        let (k, known) = known-subscriber in
        let run = delivery p r policy ca sender e.subscriber e.handler type_id value k.x25519 w in
        let still : run.0.store ≡ w.store =
          ((delivery-Safe p r policy ca (λ s. s ≡ w.store) sender e.subscriber e.handler type_id
              value k.x25519).run
            w refl).0 in
        elim (Result-cases run.1) [
          | inl (frame, made) ↦ inl (
            frame,
            record run.0 { store = (Store.claim_subscription e w.store).0 },
            record {
              keys = k;
              known = known;
              before = w;
              after = run.0;
              made = ap (λ x. (run.0, x)) made;
            },
            refl,
            rw (known, made)
                (ap
                    (λ s. (
                      record run.0 { store = (Store.claim_subscription e s).0 },
                      ok (if (Store.claim_subscription e s).1 then some frame else none),
                    ))
                    still
                  ∙ ap
                      (λ b. (
                        record run.0 { store = (Store.claim_subscription e w.store).0 },
                        ok (if b then some frame else none),
                      ))
                      held),
          )
          | inr (x, made) ↦ inr (x, run.0, still, rw (known, made) refl)
        ]
