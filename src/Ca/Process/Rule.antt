-- ===== src/Ca/Process/Rule.antt =====
-- The rule for the invariants of the store under the requests that
-- `CertificateAuthority::process` of implementations/rust/crates/ca-core/src/lib.rs serves.
use secure_pub_sub.Prelude.{
  ℕ, ◌≡◌, refl, Bool, true, false, not, is_some, Bytes, ok, ◌==◌, ℕ-Eq, List-Eq, Option-cases, inl,
  inr, arith, ok_or, nat_eq_iff, map_err-eq-ok,
}
use secure_pub_sub.Prelude.Map
use secure_pub_sub.Prelude.Map.{Map}
use secure_pub_sub.Protocol.Types.{
  AgentId, HandlerId, SessionId, TypeId, MessageType, no_handler, bad_signature,
  unauthorized_environment, Error,
}
use secure_pub_sub.Protocol.Types as Types
use secure_pub_sub.Protocol.Cursor.{PredicateRef}
use secure_pub_sub.Protocol.Environment.{EnvironmentRef}
use secure_pub_sub.Protocol.Operation.{OperationRef, parse_operation}
use secure_pub_sub.Protocol.Primitives.{Primitives, CryptoRandom}
use secure_pub_sub.Ca.Store
use secure_pub_sub.Ca.Store.{
  MemoryStore, PublicKeys, StoredSubscription, SubscriptionKind, one_shot, permanent,
}
use secure_pub_sub.Ca.Guard.{EnvironmentPolicy}
use secure_pub_sub.Ca.Handler.{World, lift, read, ◌>>=◌}
use secure_pub_sub.Ca.Handler.Safe.{
  Safe-bind, Safe-then, Safe-tested, lift-still, stored_last, Safe-lift, Safe-pure, Safe-fail,
  Safe-stored, Safe-read, Safe-ensure,
}
use secure_pub_sub.Ca.Process.{
  CaKeys, parse_environment, subscription_predicate, validate_stored_environment,
  set_environment_request, subscribe_request, publish_request, dispatch, process,
}
use secure_pub_sub.Ca.Process.Served.{IsInvariant}
use secure_pub_sub.Ca.Process.RoundRule.{Any, Serves, keys_of-Serves, rounds-Serves}

not-eq-true : (b : Bool) → not b ≡ true → b ≡ false
not-eq-true b h = ground arith

module _ (p : Primitives) (r : CryptoRandom) (policy : EnvironmentPolicy) (ca : CaKeys)
    (directory : Map AgentId PublicKeys) (P : MemoryStore → Type 0)
    (inv : IsInvariant policy directory P) where
  validate_stored-still :
      (agent : AgentId) (w : World r) → (validate_stored_environment p r policy ca agent w).0 ≡ w
  unfolding validate_stored_environment lift read ◌>>=◌
  validate_stored-still agent w =
      lift-still (ok_or (Store.environment agent w.store) unauthorized_environment) _ w
        (λ encoded. lift-still (parse_environment encoded) _ w (λ environment. refl))

  validate_stored-found :
      (agent : AgentId) (w : World r)
      → (validate_stored_environment p r policy ca agent w).1 ≡ ok tt
      → is_some (Store.environment agent w.store) ≡ true
  unfolding validate_stored_environment lift read ◌>>=◌
  validate_stored-found agent w h = elim (Option-cases (Store.environment agent w.store)) [
    | inl absent ↦ absurd (ground arith)
    | inr (encoded, e) ↦ rw e refl
  ]

  set_environment-Serves :
      (sender : AgentId) (handler : HandlerId) (plaintext : Bytes) (proposed : EnvironmentRef)
      → is_some (Map.get sender directory) ≡ true
      → parse_environment plaintext ≡ ok proposed
      → Serves p r policy ca directory P inv
          (set_environment_request p r policy ca sender handler plaintext proposed)
          Any
  unfolding set_environment_request
  set_environment-Serves sender handler plaintext proposed known parsed =
      Safe-then (Safe-ensure _ _) (λ _. Safe-bind (Safe-read {Q = Any} _ (λ _ _. tt)) (λ found _.
        Safe-bind (Safe-lift {Q = Any} _ (λ _ _. tt)) (λ current _.
          Safe-then
            (Safe-lift {Q = λ _. policy.validate_environment sender current proposed ≡ ok tt} _
              (λ u valid. map_err-eq-ok (λ _. unauthorized_environment) _ valid))
            (λ valid.
              Safe-then
                (Safe-stored _ (λ s h. inv.sets s sender plaintext h (record {
                  setting = proposed;
                  parsed = parsed;
                  current = current;
                  approved = valid;
                  known = known;
                })))
                (λ _. Safe-pure _ tt)))))

  subscribe-Serves :
      (sender : AgentId) (handler : HandlerId) (plaintext : Bytes) (type_id : TypeId)
      (kind : SubscriptionKind) (operation : OperationRef) (predicate : PredicateRef)
      → parse_operation plaintext ≡ ok operation
      → subscription_predicate type_id kind operation ≡ ok predicate
      → Serves p r policy ca directory P inv
          (subscribe_request p r policy ca sender handler plaintext type_id kind)
          Any
  unfolding subscribe_request
  subscribe-Serves sender handler plaintext type_id kind operation predicate parsed matching =
      Safe-then (Safe-ensure _ _) (λ named.
        Safe-tested _ _ (λ s. is_some (Store.environment sender s) ≡ true)
          (validate_stored-still sender) (validate_stored-found sender)
          (λ w h settled.
            stored_last P Any _ _ w
              (inv.puts w.store _ h (record {
                typed = refl;
                handled = not-eq-true (handler == no_handler) named;
                operation = operation;
                predicate = predicate;
                encoded = parsed;
                matching = matching;
                settled = settled;
              }))
              tt))

  publish-Serves :
      (sender : AgentId) (handler : HandlerId) (type_id : TypeId) (predicate : PredicateRef)
      (value : Bytes)
      → Serves p r policy ca directory P inv
          (publish_request p r policy ca sender handler type_id predicate value)
          Any
  unfolding publish_request
  publish-Serves sender handler type_id predicate value = Safe-then (Safe-ensure _ _) (λ _.
      Safe-bind (Safe-read {Q = Any} _ (λ _ _. tt)) (λ found _.
        Safe-bind (Safe-lift {Q = Any} _ (λ _ _. tt)) (λ encoded _.
          Safe-bind (Safe-lift {Q = Any} _ (λ _ _. tt)) (λ publisher _.
            Safe-then (Safe-lift {Q = Any} _ (λ _ _. tt)) (λ _.
              Safe-bind (Safe-read {Q = Any} _ (λ _ _. tt)) (λ subscriptions _.
                Safe-bind
                  (rounds-Serves p r policy ca directory P inv sender publisher type_id predicate
                    value subscriptions)
                  (λ frames _. Safe-pure _ tt)))))))

  pub dispatch-Serves :
      (sender : AgentId) (handler : HandlerId) (plaintext : Bytes) (type : MessageType)
      (operation : OperationRef)
      → is_some (Map.get sender directory) ≡ true
      → parse_operation plaintext ≡ ok operation
      → Serves p r policy ca directory P inv
          (dispatch p r policy ca sender handler plaintext type operation)
          Any
  unfolding dispatch parse_environment
  dispatch-Serves sender handler plaintext Types.set_environment (OperationRef.set_environment e)
        known parsed =
      set_environment-Serves sender handler plaintext e known (rw parsed refl)
  dispatch-Serves sender handler plaintext Types.subscribe (OperationRef.subscribe t pred) known
        parsed =
      subscribe-Serves sender handler plaintext t one_shot (OperationRef.subscribe t pred) pred
        parsed (rw ((nat_eq_iff t t).1 refl) refl)
  dispatch-Serves sender handler plaintext Types.subscribe_permanent
        (OperationRef.subscribe_permanent t pred) known parsed =
      subscribe-Serves sender handler plaintext t permanent
        (OperationRef.subscribe_permanent t pred) pred parsed (rw ((nat_eq_iff t t).1 refl) refl)
  dispatch-Serves sender handler plaintext Types.publish (OperationRef.publish t pred value) known
        parsed =
      publish-Serves sender handler t pred value
  dispatch-Serves sender handler plaintext _ _ known parsed = Safe-fail _

  -- The whole request keeps what marking a session keeps too.
  pub process-Serves :
      (now : ℕ)
      → ((s : MemoryStore) (sender : AgentId) (session : SessionId)
          → P s
          → P (Store.check_and_mark sender session now s).0)
      → (frame : Bytes) → Serves p r policy ca directory P inv (process p r policy ca frame now) Any
  unfolding process
  process-Serves now marks frame = Safe-bind (Safe-lift {Q = Any} _ (λ _ _. tt)) (λ envelope _.
      Safe-then (Safe-ensure _ _) (λ _. Safe-then (Safe-ensure _ _) (λ _.
        Safe-bind (keys_of-Serves p r policy ca directory P inv envelope.sender) (λ keys known.
          Safe-then (Safe-ensure _ _) (λ _.
            Safe-bind (Safe-lift {Q = Any} _ (λ _ _. tt)) (λ again _.
              Safe-then (Safe-lift {Q = Any} _ (λ _ _. tt)) (λ _.
                Safe-then (Safe-stored _ (λ s h. marks s envelope.sender envelope.session_id h))
                  (λ _. Safe-bind (Safe-lift {Q = Any} _ (λ _ _. tt)) (λ plaintext _.
                    Safe-bind (Safe-lift {Q = λ o. parse_operation plaintext ≡ ok o} _ (λ _ e. e))
                      (λ operation parsed.
                        dispatch-Serves envelope.sender envelope.handler plaintext
                          envelope.message_type operation known parsed))))))))))
