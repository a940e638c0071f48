-- ===== src/Ca/Process/Admission.antt =====
-- What a request passes before `CertificateAuthority::process` of
-- implementations/rust/crates/ca-core/src/lib.rs touches the store.
use secure_pub_sub.Prelude.{
  ℕ, ◌≡◌, ◌⊎◌, refl, ap, subst, ◌∙◌, Bool, true, false, not, ◌&&◌, &&-eq-true, Bytes, Result, ok,
  err, ensure, ◌>>=◌, ◌>>◌, >>=-eq-ok, ensure-eq-ok, Result-cases, ok-injective, ◌≢◌, ◌==◌, ==_iff,
  ==_refl, ℕ-Eq, List-Eq, Bool-cases, inl, inr, arith,
}
use secure_pub_sub.Protocol.Types.{
  MessageType, ca_id, message_eq, publication_response, Error, wrong_recipient, wrong_message_type,
  bad_signature,
}
use secure_pub_sub.Protocol.Codec.{EnvelopeRef, parse_envelope}
use secure_pub_sub.Protocol.Operation.{parse_operation}
use secure_pub_sub.Protocol.Primitives.{Primitives, CryptoRandom}
use secure_pub_sub.Protocol.Crypto.{open_in_place, verify_envelope_signature}
use secure_pub_sub.Ca.Store
use secure_pub_sub.Ca.Store.{MemoryStore, PublicKeys}
use secure_pub_sub.Ca.Guard.{EnvironmentPolicy}
use secure_pub_sub.Ca.Handler.{Handler, World, continue}
use secure_pub_sub.Ca.Handler as Handler
use secure_pub_sub.Ca.Process.{CaKeys, ProcessResult, keys_of, dispatch, process}

module _ (p : Primitives) (frame : Bytes) (s : MemoryStore) where
  -- The checks, with the envelope and the keys of its sender.
  pub gate : Result Error (EnvelopeRef × PublicKeys)
  gate = do
    e ← parse_envelope frame
    ensure (e.recipient == ca_id && not (e.sender == ca_id)) wrong_recipient
    ensure (not (message_eq e.message_type publication_response)) wrong_message_type
    k ← Store.keys e.sender s
    ensure (p.is_verifying_key k.ed25519) bad_signature
    verify_envelope_signature p e k.ed25519
    ok (e, k)

module _ (p : Primitives) (r : CryptoRandom) (policy : EnvironmentPolicy) (ca : CaKeys)
    (frame : Bytes) (now : ℕ) where
  -- What follows the mark of the session.
  unfoldable pub behind : EnvelopeRef × PublicKeys → Handler r ProcessResult
  behind (e, k) =
      Handler.◌>>=◌ (Handler.lift (open_in_place p frame ca_id e.message_type k.ed25519 ca.x25519))
        (λ plaintext. Handler.◌>>=◌ (Handler.lift (parse_operation plaintext)) (λ operation.
          dispatch p r policy ca e.sender e.handler plaintext e.message_type operation))

  -- The processing of a request that has passed the checks.
  unfoldable pub serve : EnvelopeRef × PublicKeys → Handler r ProcessResult
  serve (e, k) =
      Handler.◌>>◌ (Handler.stored (Store.check_and_mark e.sender e.session_id now)) (behind (e, k))

  -- The state in which the session was checked.
  abbrev pub checked : EnvelopeRef → World r → World r
  checked e w = record w { store = (Store.check_and_mark e.sender e.session_id now w.store).0 }

  pub serve-err :
      (e : EnvelopeRef) (k : PublicKeys) (w : World r) (x : Error)
      → (Store.check_and_mark e.sender e.session_id now w.store).1 ≡ err x
      → serve (e, k) w ≡ (checked e w, err x)
  unfolding serve Handler.◌>>◌ Handler.◌>>=◌ Handler.stored
  serve-err e k w x h = rw h refl

  pub serve-ok :
      (e : EnvelopeRef) (k : PublicKeys) (w : World r)
      → (Store.check_and_mark e.sender e.session_id now w.store).1 ≡ ok tt
      → serve (e, k) w ≡ behind (e, k) (checked e w)
  unfolding serve Handler.◌>>◌ Handler.◌>>=◌ Handler.stored
  serve-ok e k w h = rw h refl

  pub process-gate :
      (w : World r) → process p r policy ca frame now w ≡ continue (w, gate p frame w.store) serve
  unfolding process gate serve behind keys_of Handler.◌>>=◌ Handler.◌>>◌ Handler.lift Handler.ensure
      verify_envelope_signature
  process-gate w = elim (Result-cases (parse_envelope frame)) [
    | inr (x, e) ↦ rw e refl
    | inl (e, parsed) ↦ elim (Bool-cases (e.recipient == ca_id && not (e.sender == ca_id))) [
      | inr t ↦ rw (parsed, t) refl
      | inl t ↦ elim (Bool-cases (not (message_eq e.message_type publication_response))) [
        | inr u ↦ rw (parsed, t, u) refl
        | inl u ↦ elim (Result-cases (Store.keys e.sender w.store)) [
          | inr (x, v) ↦ rw (parsed, t, u, v) refl
          | inl (k, v) ↦ elim (Bool-cases (p.is_verifying_key k.ed25519)) [
            | inr usable ↦ rw (parsed, t, u, v, usable) refl
            | inl usable ↦
                elim (Bool-cases (p.verify_strict k.ed25519 e.signed_bytes e.signature)) [
                  | inr signed ↦ rw (parsed, t, u, v, usable, signed) refl
                  | inl signed ↦ rw (parsed, t, u, v, usable, signed) refl
                ]
          ]
        ]
      ]
    ]
  ]

-- A request that is for the authority, not from it, of a request's type, and whose sender is
-- provisioned with a key under which its signature verifies.
pub record IsAdmitted (p : Primitives) (frame : Bytes) (s : MemoryStore) (e : EnvelopeRef)
    (k : PublicKeys) : Type 0 where
  pub parsed : parse_envelope frame ≡ ok e
  pub addressed : e.recipient ≡ ca_id
  pub foreign : (e.sender == ca_id) ≡ false
  pub request : e.message_type ≢ publication_response
  pub provisioned : Store.keys e.sender s ≡ ok k
  pub signed : p.verify_strict k.ed25519 e.signed_bytes e.signature ≡ true

not-eq-true : (b : Bool) → not b ≡ true → b ≡ false
not-eq-true b h = ground arith

request-type :
    (t : MessageType) → not (message_eq t publication_response) ≡ true → t ≢ publication_response
request-type t h e = let h' = subst (λ k. not (message_eq k publication_response) ≡ true) e h in cc

module _ (p : Primitives) (frame : Bytes) (s : MemoryStore) where
  pub gate-IsAdmitted :
      (e : EnvelopeRef) (k : PublicKeys) → gate p frame s ≡ ok (e, k) → IsAdmitted p frame s e k
  unfolding gate verify_envelope_signature
  gate-IsAdmitted e' k' h =
      let (e, parsed, h0) = >>=-eq-ok (parse_envelope frame) _ h in
      let (both, h1) =
        ensure-eq-ok (e.recipient == ca_id && not (e.sender == ca_id)) wrong_recipient _ h0 in
      let (request, h2) =
        ensure-eq-ok (not (message_eq e.message_type publication_response)) wrong_message_type _
          h1 in
      let (k, known, h3) = >>=-eq-ok (Store.keys e.sender s) _ h2 in
      let (usable, h4) = ensure-eq-ok (p.is_verifying_key k.ed25519) bad_signature _ h3 in
      let (signed, h5) =
        ensure-eq-ok (p.verify_strict k.ed25519 e.signed_bytes e.signature) bad_signature _ h4 in
      let (to, from) = &&-eq-true (e.recipient == ca_id) (not (e.sender == ca_id)) both in
      let same : (e, k) ≡ (e', k') = ok-injective h5 in
      subst (λ q. IsAdmitted p frame s q.0 q.1) same
        (record {
          parsed = parsed;
          addressed = (==_iff e.recipient ca_id).0 to;
          foreign = not-eq-true (e.sender == ca_id) from;
          request = request-type e.message_type request;
          provisioned = known;
          signed = signed;
        })

  -- The checks read the directory and nothing else of the store.
  pub gate-eq :
      (s' : MemoryStore) → s'.public_keys ≡ s.public_keys → gate p frame s' ≡ gate p frame s
  unfolding gate Store.keys
  gate-eq s' same = ap (λ m. gate p frame (record s { public_keys = m })) same

-- A frame that passes each of the authority's checks.
pub gate-passes :
    (p : Primitives) (frame : Bytes) (s : MemoryStore) (e : EnvelopeRef) (k : PublicKeys)
    → parse_envelope frame ≡ ok e
    → e.recipient ≡ ca_id
    → (e.sender == ca_id) ≡ false
    → message_eq e.message_type publication_response ≡ false
    → Store.keys e.sender s ≡ ok k
    → p.is_verifying_key k.ed25519 ≡ true
    → p.verify_strict k.ed25519 e.signed_bytes e.signature ≡ true
    → gate p frame s ≡ ok (e, k)
unfolding gate verify_envelope_signature
gate-passes p frame s e k parsed to foreign typed known usable signed =
    let addressed : (e.recipient == ca_id) ≡ true = ap (λ a. a == ca_id) to ∙ ==_refl ca_id in
    rw (parsed, addressed, foreign, typed, known, usable, signed) refl

module _ (p : Primitives) (r : CryptoRandom) (policy : EnvironmentPolicy) (ca : CaKeys)
    (frame : Bytes) (now : ℕ) (w : World r) where
  -- A request either ends in an error and leaves the whole state as it was, or it has been admitted:
  -- it is an envelope for the authority, from another sender, of a request's type, whose sender is
  -- in the directory with a key under which its signature verifies; only then is its session marked and the request served.
  pub process-admits :
      ((x : Error) × (process p r policy ca frame now w ≡ (w, err x)))
      ⊎ ((e : EnvelopeRef) × (k : PublicKeys) × IsAdmitted p frame w.store e k
          × (gate p frame w.store ≡ ok (e, k))
          × (process p r policy ca frame now w ≡ serve p r policy ca frame now (e, k) w))
  process-admits = elim (Result-cases (gate p frame w.store)) [
    | inr (x, refused) ↦ inl (x, process-gate p r policy ca frame now w ∙ rw refused refl)
    | inl ((e, k), passed) ↦ inr (
      e,
      k,
      gate-IsAdmitted p frame w.store e k passed,
      passed,
      process-gate p r policy ca frame now w ∙ rw passed refl,
    )
  ]
