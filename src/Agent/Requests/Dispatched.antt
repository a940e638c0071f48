-- ===== src/Agent/Requests/Dispatched.antt =====
-- The requests of agents (implementations/rust/crates/agent-core/src/lib.rs) at the authority
-- (implementations/rust/crates/ca-core/src/lib.rs).
use secure_pub_sub.Prelude.{
  ℕ, ◌≤◌, ◌≡◌, ◌≢◌, refl, sym, ap, ◌∙◌, subst, true, false, length, ◌==◌, Bytes, ok, ok-injective,
  ℕ-Eq, List-Eq,
}
use secure_pub_sub.Protocol.Types.{
  AgentId, HandlerId, ca_id, message_eq, publication_response, max_plaintext_len,
}
use secure_pub_sub.Protocol.Operation.Wire.{
  Operation, environment, subscription, permanent_subscription, publication, response, IsOperation,
  operation_bytes, view,
}
use secure_pub_sub.Protocol.Operation.RoundTrip.{parse-operation_bytes}
use secure_pub_sub.Protocol.Primitives.{Primitives, IsSound, CryptoRandom, Fills}
use secure_pub_sub.Protocol.Crypto.{zero_secret}
use secure_pub_sub.Protocol.Crypto.Opens.{open-Authentic}
use secure_pub_sub.Ca.Store
use secure_pub_sub.Ca.Store.{PublicKeys}
use secure_pub_sub.Ca.Guard.{EnvironmentPolicy}
use secure_pub_sub.Ca.Handler as Handler
use secure_pub_sub.Ca.Handler.{World, continue}
use secure_pub_sub.Ca.Process.{CaKeys, dispatch, process}
use secure_pub_sub.Ca.Process.Admission.{gate, gate-passes, behind, serve, process-gate, serve-ok}
use secure_pub_sub.Agent.Requests.{AgentKeys}
use secure_pub_sub.Agent.Requests.Sealed.{enrolled, type_of, IsRequest, request, request-opens}

request-message :
    (handler : HandlerId) (o : Operation)
    → IsRequest handler o
    → message_eq (type_of o) publication_response ≡ false
request-message handler (environment _) h = refl
request-message handler (subscription _ _) h = refl
request-message handler (permanent_subscription _ _) h = refl
request-message handler (publication _ _ _) h = refl
request-message handler (response _ _ _) h = absurd h

module _ (p : Primitives) (sound : IsSound p) (r : CryptoRandom) (fills : Fills r)
    (q : CryptoRandom) (policy : EnvironmentPolicy) (ca : CaKeys) (id : AgentId) (keys : AgentKeys)
    (o : Operation) (handler : HandlerId) (valid : IsOperation o) (wanted : IsRequest handler o)
    (short : length (operation_bytes o) ≤ max_plaintext_len) (id_width : length id ≡ 16)
    (handler_width : length handler ≡ 16) (foreign : (id == ca_id) ≡ false)
    (strong : (ephemeral : Bytes)
      → p.diffie_hellman ephemeral (p.x25519_public ca.x25519) ≢ zero_secret)
    (rng : r.State) (now : ℕ) (w : World q) (k : PublicKeys)
    (provisioned : Store.keys id w.store ≡ ok k) (own : k.ed25519 ≡ p.verifying_key keys.signing)
    (fresh : (Store.check_and_mark id (r.fill_bytes 16 rng).1 now w.store).1 ≡ ok tt) where
  -- With sound primitives, a generator that fills its arrays, and an authority with whose key no
  -- agreement is zero: an agent with an identifier of 16 bytes that is not the authority's writes a
  -- request within the bounds of the protocol, of at most 4096 bytes encoded, with a handler of 16
  -- bytes that is not the reserved one for a subscription, and else the reserved one. When the
  -- authority has the agent's verifying key in the directory and does not refuse the session, the
  -- frame makes it mark that session and then run, for this agent and this handler, the arm of the
  -- operation on the view of exactly the operation that was requested.
  pub request-dispatched :
      (frame : Bytes) × (rng' : r.State) × (request p r (enrolled p id keys ca) o handler rng
        ≡ (rng', ok frame))
      × (process p q policy ca frame now w
          ≡ dispatch p q policy ca id handler (operation_bytes o) (type_of o) (view o) (record w {
            store = (Store.check_and_mark id (r.fill_bytes 16 rng).1 now w.store).0;
          }))
  unfolding behind Handler.lift Handler.◌>>=◌
  request-dispatched =
      let (frame, rng', written, opened, e, parsed, typed, from, to, handled, drawn) =
        request-opens p sound r fills id keys ca o handler valid wanted short id_width handler_width
          strong rng in
      let (e', parsed', authentic) =
        open-Authentic p frame ca_id (type_of o) (p.verifying_key keys.signing) ca.x25519 opened in
      let same : e' ≡ e = ok-injective (sym parsed' ∙ parsed) in
      let signed : p.verify_strict k.ed25519 e.signed_bytes e.signature ≡ true =
        ap (λ key. p.verify_strict key e.signed_bytes e.signature) own
        ∙ subst
            (λ x. p.verify_strict (p.verifying_key keys.signing) x.signed_bytes x.signature ≡ true)
            same authentic.signed in
      let passed : gate p frame w.store ≡ ok (e, k) =
        gate-passes p frame w.store e k parsed to (ap (λ a. a == ca_id) from ∙ foreign)
          (ap (λ t. message_eq t publication_response) typed ∙ request-message handler o wanted)
          (ap (λ a. Store.keys a w.store) from ∙ provisioned)
          (ap p.is_verifying_key own ∙ sound.well_formed keys.signing) signed in
      let marked : (Store.check_and_mark e.sender e.session_id now w.store).1 ≡ ok tt =
        ap (λ a. (Store.check_and_mark a e.session_id now w.store).1) from
        ∙ ap (λ x. (Store.check_and_mark id x now w.store).1) drawn
        ∙ fresh in
      (
        frame,
        rng',
        written,
        process-gate p q policy ca frame now w
            ∙ ap (λ g. continue (w, g) (serve p q policy ca frame now)) passed
            ∙ serve-ok p q policy ca frame now e k w marked
            ∙ rw (typed, from, handled, drawn, own, opened, parse-operation_bytes o valid) refl,
      )
