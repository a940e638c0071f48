-- ===== src/Ca/Process/Replayed.antt =====
-- A request that was accepted by the authority of implementations/rust/crates/ca-core/src/lib.rs is
-- refused when it comes again.
use secure_pub_sub.Prelude.{
  saturating_add, ℕ, ◌<◌, ◌≡◌, sym, ap, subst, ◌∙◌, true, is_some, All, Bytes, ok, err, ok_or-eq-ok,
  Result-cases, inl, inr, ℕ-Eq, List-Eq,
}
use secure_pub_sub.Prelude.Map
use secure_pub_sub.Prelude.Map.{Map}
use secure_pub_sub.Protocol.Types.{AgentId, SessionId, replay, bad_signature}
use secure_pub_sub.Protocol.Codec.{EnvelopeRef}
use secure_pub_sub.Protocol.Operation.{parse_operation}
use secure_pub_sub.Protocol.Primitives.{Primitives, CryptoRandom}
use secure_pub_sub.Ca.Replay
use secure_pub_sub.Ca.Replay.Once
use secure_pub_sub.Ca.Store
use secure_pub_sub.Ca.Store.{MemoryStore, PublicKeys}
use secure_pub_sub.Ca.Guard.{EnvironmentPolicy}
use secure_pub_sub.Ca.Handler.{World, continue}
use secure_pub_sub.Ca.Handler.Safe.{Safe, Safe-bind, Safe-lift}
use secure_pub_sub.Ca.Process.{CaKeys, ProcessResult, process}
use secure_pub_sub.Ca.Process.Served.{IsServed}
use secure_pub_sub.Ca.Process.Served.Kept.{check_and_mark-IsServed}
use secure_pub_sub.Ca.Process.RoundRule.{Any}
use secure_pub_sub.Ca.Process.Rule.{dispatch-Serves}
use secure_pub_sub.Ca.Process.Admission.{
  gate, serve, behind, checked, serve-ok, serve-err, gate-eq, IsAdmitted, process-admits,
  process-gate,
}
use secure_pub_sub.Ca.Process.Sessions.{
  IsMarked, IsMarked-IsInvariant, Requests, process_all, process_all-IsMarked,
}

-- The store apart from its replay cache.
abbrev pub besides_replay : MemoryStore → MemoryStore
besides_replay s = record s { replay = Replay.new 0 0 }

module _ (p : Primitives) (r : CryptoRandom) (policy : EnvironmentPolicy) (ca : CaKeys)
    (directory : Map AgentId PublicKeys) (frame : Bytes) where
  module _ (sender : AgentId) (session : SessionId) (expires : ℕ) where
    abbrev Marked : MemoryStore → Type 0
    Marked = IsMarked p r policy ca directory sender session expires

    -- The run behind a mark keeps it.
    behind-Safe :
        (now : ℕ) (e : EnvelopeRef) (k : PublicKeys)
        → is_some (Map.get e.sender directory) ≡ true
        → Safe Marked (behind p r policy ca frame now (e, k)) Any
    unfolding behind
    behind-Safe now e k known = Safe-bind (Safe-lift {Q = Any} _ (λ _ _. tt)) (λ plaintext _.
        Safe-bind (Safe-lift {Q = λ o. parse_operation plaintext ≡ ok o} _ (λ _ h. h))
          (λ operation parsed.
            dispatch-Serves p r policy ca directory Marked
              (IsMarked-IsInvariant p r policy ca directory sender session expires) e.sender
              e.handler plaintext e.message_type operation known parsed))

  known-sender :
      (s : MemoryStore) (agent : AgentId) (k : PublicKeys)
      → Store.keys agent s ≡ ok k
      → is_some (Map.get agent s.public_keys) ≡ true
  unfolding Store.keys
  known-sender s agent k h = ap is_some (ok_or-eq-ok (Map.get agent s.public_keys) bad_signature h)

  module _ (now : ℕ) (w : World r) (v : IsServed policy directory w.store) (e : EnvelopeRef)
      (k : PublicKeys) (a : IsAdmitted p frame w.store e k) where
    abbrev expires : ℕ
    expires = saturating_add now w.store.replay.ttl_seconds

    -- After the request has been accepted, its session is remembered.
    served-IsMarked :
        (result : ProcessResult)
        → (serve p r policy ca frame now (e, k) w).1 ≡ ok result
        → Marked e.sender e.session_id expires (serve p r policy ca frame now (e, k) w).0.store
    unfolding Store.check_and_mark
    served-IsMarked result h =
        elim (Result-cases (Store.check_and_mark e.sender e.session_id now w.store).1) [
          | inr (x, refused) ↦
              absurd (cc (ap (λ q. q.1) (serve-err p r policy ca frame now e k w x refused), h))
          | inl (u, fresh) ↦
              subst (λ q. Marked e.sender e.session_id expires q.0.store)
                (sym (serve-ok p r policy ca frame now e k w fresh))
                (((behind-Safe e.sender e.session_id expires now e k known).run
                  (checked p r policy ca frame now e w) (marked fresh)).0)
        ]
      where
        known : is_some (Map.get e.sender directory) ≡ true
        known =
            subst (λ d. is_some (Map.get e.sender d) ≡ true) v.provisioned
              (known-sender w.store e.sender k a.provisioned)

        marked :
            (fresh : (Store.check_and_mark e.sender e.session_id now w.store).1 ≡ ok tt)
            → Marked e.sender e.session_id expires (checked p r policy ca frame now e w).store
        marked fresh = record {
          served = check_and_mark-IsServed policy directory w.store v e.sender e.session_id now;
          marked =
              Once.accepted-Remembers e.sender e.session_id now w.store.replay v.sessions fresh;
        }

    -- The same request in a later state that remembers its session.
    refused :
        (now' : ℕ) (w' : World r)
        → Marked e.sender e.session_id expires w'.store
        → gate p frame w.store ≡ ok (e, k)
        → now' < expires
        → process p r policy ca frame now' w' ≡ (checked p r policy ca frame now' e w', err replay)
    unfolding Store.check_and_mark
    refused now' w' m passed soon =
        let same : gate p frame w'.store ≡ ok (e, k) =
          gate-eq p frame w.store w'.store (m.served.provisioned ∙ sym v.provisioned) ∙ passed in
        process-gate p r policy ca frame now' w'
        ∙ ap (λ g. continue (w', g) (serve p r policy ca frame now')) same
        ∙ serve-err p r policy ca frame now' e k w' replay (
            Once.remembered-refused e.sender e.session_id now' w'.store.replay m.served.sessions
              expires m.marked soon)

  -- In a well-formed store, once a request has been accepted, the same frame is refused as a replay
  -- after any history of other requests, as long as each of them and the frame itself come before
  -- the session expires; the refusal changes nothing but the replay cache.
  pub process-replayed :
      (now now' : ℕ) (requests : Requests) (w : World r) (result : ProcessResult)
      → IsServed policy directory w.store
      → (process p r policy ca frame now w).1 ≡ ok result
      → All (λ q. q.1 < saturating_add now w.store.replay.ttl_seconds) requests
      → now' < saturating_add now w.store.replay.ttl_seconds
      → ((process p r policy ca frame now'
            (process_all p r policy ca directory requests (process p r policy ca frame now w).0)).1
          ≡ err replay)
        × (besides_replay
              (process p r policy ca frame now' (
                process_all p r policy ca directory requests
                  (process p r policy ca frame now w).0)).0.store
            ≡ besides_replay
                (process_all p r policy ca directory requests
                  (process p r policy ca frame now w).0).store)
  unfolding Store.check_and_mark
  process-replayed now now' requests w result v accepted before soon =
      elim (process-admits p r policy ca frame now w) [
        | inl (x, e) ↦ absurd (cc (ap (λ q. q.1) e, accepted))
        | inr (e, k, a, passed, same) ↦
            let first =
              subst (λ q. Marked e.sender e.session_id (expires now w v e k a) q.0.store) (sym same)
                (served-IsMarked now w v e k a result (ap (λ q. q.1) (sym same) ∙ accepted)) in
            let later =
              process_all-IsMarked p r policy ca directory e.sender e.session_id
                (expires now w v e k a) requests (process p r policy ca frame now w).0 before
                first in
            let refusal =
              refused now w v e k a now'
                (process_all p r policy ca directory requests (process p r policy ca frame now w).0)
                later passed soon in
            (ap (λ q. q.1) refusal, ap (λ q. besides_replay q.0.store) refusal)
      ]
