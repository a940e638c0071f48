-- ===== src/Ca/Process/Publication.antt =====
-- What a publication does in `CertificateAuthority::process` of
-- implementations/rust/crates/ca-core/src/lib.rs.
use secure_pub_sub.Prelude.{
  ◌≡◌, refl, sym, ap, ap₂, ◌∙◌, true, List, some, none, Bytes, Result, ok, err, Bool-cases,
  Option-cases, Result-cases, ok-injective, map_err-eq-ok, inl, inr, ◌==◌, ℕ-Eq, List-Eq,
}
use secure_pub_sub.Prelude.Map.{Map}
use secure_pub_sub.Protocol.Types.{
  AgentId, HandlerId, TypeId, Error, no_handler, wrong_handler, malformed, unauthorized_environment,
}
use secure_pub_sub.Protocol.Cursor.{PredicateRef}
use secure_pub_sub.Protocol.Environment.{EnvironmentRef}
use secure_pub_sub.Protocol.Primitives.{Primitives, CryptoRandom}
use secure_pub_sub.Ca.Store
use secure_pub_sub.Ca.Store.{MemoryStore, PublicKeys, StoredSubscription, subscriptions_for}
use secure_pub_sub.Ca.Store.Entries.{Unique-find}
use secure_pub_sub.Ca.Store.Subscriptions.{lookup}
use secure_pub_sub.Ca.Guard.{EnvironmentPolicy}
use secure_pub_sub.Ca.Handler.{World, pure, lift, read, ensure, ◌>>=◌, ◌>>◌, continue}
use secure_pub_sub.Ca.Process.{
  CaKeys, ProcessResult, deliveries, parse_environment, publish_request, validate,
}
use secure_pub_sub.Ca.Process.Served.{IsServed}
use secure_pub_sub.Ca.Process.Ahead.{IsAhead}
use secure_pub_sub.Ca.Process.Rounds.{run_rounds, IsServedBy, rounds-IsServedBy}

deliveries-injective : {a b : List Bytes} → deliveries a ≡ deliveries b → a ≡ b
deliveries-injective h = cc

finished :
    {r : CryptoRandom} (x : World r × Result Error (List Bytes)) (w' : World r)
    (frames : List Bytes)
    → continue x (λ sent. pure (deliveries sent)) ≡ (w', ok (deliveries frames))
    → x ≡ (w', ok frames)
unfolding pure
finished (w, ok sent) w' frames h =
    ap₂ (λ v l. (v, ok l)) (ap (λ q. q.0) h) (deliveries-injective (ok-injective (ap (λ q. q.1) h)))
finished (w, err x) w' frames h = absurd (cc (ap (λ q. q.1) h))

module _ (p : Primitives) (r : CryptoRandom) (policy : EnvironmentPolicy) (ca : CaKeys)
    (directory : Map AgentId PublicKeys) (sender : AgentId) (type_id : TypeId)
    (predicate : PredicateRef) (value : Bytes) where
  -- Before the rounds all subscriptions of the type are to be served.
  ahead :
      (s : MemoryStore)
      → IsServed policy directory s
      → IsAhead policy directory type_id s (subscriptions_for type_id s)
  unfolding lookup
  ahead s v = record {
    served = v;
    entries = v.entries type_id;
    held = Unique-find (subscriptions_for type_id s) (v.valid.unique type_id);
    unique = v.valid.unique type_id;
  }

  module _ (handler : HandlerId) (w w' : World r) (frames : List Bytes) where
    -- What the publisher has passed before the rounds.
    pub record IsPublisher (publisher : EnvironmentRef) : Type 0 where
      pub encoded : Bytes
      pub stored : Store.environment sender w.store ≡ some encoded
      pub parsed : parse_environment encoded ≡ ok publisher
      pub approved : policy.validate_environment sender none publisher ≡ ok tt
      pub unnamed : (handler == no_handler) ≡ true

    abbrev published : World r × Result Error ProcessResult
    published = publish_request p r policy ca sender handler type_id predicate value w

    failed : (x : Error) → published ≡ (w, err x) → published ≡ (w', ok (deliveries frames)) → ⊥
    failed x e h = cc (ap (λ q. q.1) (sym e ∙ h))

    publish-rounds :
        published ≡ (w', ok (deliveries frames))
        → (publisher : EnvironmentRef) × IsPublisher publisher
          × (run_rounds p r policy ca directory sender publisher type_id predicate value
                (subscriptions_for type_id w.store)
                w
              ≡ (w', ok frames))
    unfolding publish_request lift read ensure ◌>>=◌ ◌>>◌
    publish-rounds h = elim (Bool-cases (handler == no_handler)) [
      | inr f ↦ absurd (failed wrong_handler (rw f refl) h)
      | inl t ↦ elim (Option-cases (Store.environment sender w.store)) [
        | inl n ↦ absurd (failed malformed (rw (t, n) refl) h)
        | inr (encoded, found) ↦ elim (Result-cases (parse_environment encoded)) [
          | inr (x, e) ↦ absurd (failed x (rw (t, found, e) refl) h)
          | inl (publisher, parsed) ↦
              elim (Result-cases (validate p r policy ca sender none publisher)) [
                | inr (x, e) ↦ absurd (failed x (rw (t, found, parsed, e) refl) h)
                | inl (u, valid) ↦ (
                  publisher,
                  record {
                    encoded = encoded;
                    stored = found;
                    parsed = parsed;
                    approved = map_err-eq-ok (λ _. unauthorized_environment) _ valid;
                    unnamed = t;
                  },
                  finished
                      (run_rounds p r policy ca directory sender publisher type_id predicate value
                        (subscriptions_for type_id w.store) w)
                      w' frames (sym (rw (t, found, parsed, valid) refl) ∙ h),
                )
              ]
        ]
      ]
    ]

    -- In a well-formed store, a publication that succeeds has a publisher whose stored environment the
    -- policy accepts; its frames are, in the order of the subscriptions of the type, one delivery for
    -- each subscription that the publication is for (its predicate holds of the publisher's
    -- environment, the publication's predicate of the subscriber's, and the policy authorizes the
    -- delivery) and none for any other; and it removes exactly the one-shot ones among these.
    pub publish-IsServedBy :
        IsServed policy directory w.store
        → published ≡ (w', ok (deliveries frames))
        → (publisher : EnvironmentRef) × IsPublisher publisher
          × IsServedBy p r policy ca directory sender publisher type_id predicate value w.store
              (subscriptions_for type_id w.store)
              frames
              w.store
              w'.store
    publish-IsServedBy v h =
        let (publisher, passed, run) = publish-rounds h in
        (
          publisher,
          passed,
          rounds-IsServedBy p r policy ca directory sender publisher type_id predicate value w.store
              (subscriptions_for type_id w.store) w w' frames (ahead w.store v)
              (record { settings = refl; directory_same = refl }) run,
        )
