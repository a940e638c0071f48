-- ===== src/Ca/Process/Rounds.antt =====
-- The rounds of a publication in `CertificateAuthority::process` of
-- implementations/rust/crates/ca-core/src/lib.rs: who gets a frame, and what becomes of the
-- subscriptions.
use secure_pub_sub.Prelude.{
  ◌≡◌, refl, sym, ap, subst, ◌∙◌, Bool, true, false, ◌&&◌, ◌||◌, List, [], ◌∷◌, Option, some, none,
  Bytes, Result, ok, err, Bool-cases, inl, inr, arith, ℕ-Eq, List-Eq, if◌then◌else◌, ok-injective,
}
use secure_pub_sub.Prelude.Map.{Map}
use secure_pub_sub.Protocol.Types.{AgentId, HandlerId, TypeId, Error}
use secure_pub_sub.Protocol.Cursor.{PredicateRef}
use secure_pub_sub.Protocol.Environment.{EnvironmentRef}
use secure_pub_sub.Protocol.Primitives.{Primitives, CryptoRandom}
use secure_pub_sub.Ca.Store.{
  MemoryStore, PublicKeys, StoredSubscription, one_shot, kind_eq, subscriptions_for,
  claim_subscription,
}
use secure_pub_sub.Ca.Store.Bucket.{Unique}
use secure_pub_sub.Ca.Store.Subscriptions.{lookup, addressed}
use secure_pub_sub.Ca.Store.Subscriptions.Claim.{lookup-claim_subscription}
use secure_pub_sub.Ca.Guard.{EnvironmentPolicy}
use secure_pub_sub.Ca.Handler.{Handler, World, pure, ◌>>=◌, continue}
use secure_pub_sub.Ca.Process.{CaKeys, push_front, round, rounds}
use secure_pub_sub.Ca.Process.Served.Kept.{claim_subscription-IsServed}
use secure_pub_sub.Ca.Process.Round.{
  selects, selects-eq, IsDelivery-eq, round-send, IsDelivery, send-cases,
}
use secure_pub_sub.Ca.Process.Ahead.{
  IsAhead, claimed, claim-IsAhead, ahead-rest, claim-environments,
}

module _ (p : Primitives) (r : CryptoRandom) (policy : EnvironmentPolicy) (ca : CaKeys)
    (directory : Map AgentId PublicKeys) (sender : AgentId) (publisher : EnvironmentRef)
    (type_id : TypeId) (predicate : PredicateRef) (value : Bytes) where
  abbrev selected : MemoryStore → StoredSubscription → Bool
  selected = selects p r policy ca sender publisher type_id predicate value

  -- The frames of a publication, in the order of the subscriptions: one for each subscription that
  -- the publication is for, and none for any other.
  pub data Sent (s : MemoryStore) : List StoredSubscription → List Bytes → Type 0 where
    done : Sent s [] []
    passed :
        (e : StoredSubscription) {l : List StoredSubscription} {frames : List Bytes}
        → selected s e ≡ false
        → Sent s l frames
        → Sent s (e ∷ l) frames
    sent :
        (e : StoredSubscription) {l : List StoredSubscription} (frame : Bytes) {frames : List Bytes}
        → selected s e ≡ true
        → IsDelivery p r policy ca sender publisher type_id predicate value s e frame
        → Sent s l frames
        → Sent s (e ∷ l) (frame ∷ frames)

  -- A run over the rest, with what is put in front of its frames.
  pub after_rest :
      (x : World r × Result Error (List Bytes)) (front : List Bytes → List Bytes) (w' : World r)
      (frames : List Bytes)
      → continue x (λ rest. pure (front rest)) ≡ (w', ok frames)
      → (rest : List Bytes) × (x ≡ (w', ok rest)) × (front rest ≡ frames)
  unfolding pure
  after_rest (w, ok rest) front w' frames h =
      (rest, ap (λ q. (q.0, ok rest)) h, ok-injective (ap (λ q. q.1) h))
  after_rest (w, err x) front w' frames h = absurd (cc (ap (λ q. q.1) h))

  abbrev pub run_rounds : List StoredSubscription → Handler r (List Bytes)
  run_rounds = rounds p r policy ca sender publisher type_id predicate value

  rounds-passed :
      (w w' : World r) (e : StoredSubscription) (l : List StoredSubscription) (found : Option Bytes)
      → round p r policy ca sender publisher type_id predicate value e w ≡ (w', ok found)
      → run_rounds (e ∷ l) w ≡ continue (run_rounds l w') (λ rest. pure (push_front found rest))
  unfolding rounds ◌>>=◌
  rounds-passed w w' e l found h = rw h refl

  rounds-failed :
      (w w' : World r) (e : StoredSubscription) (l : List StoredSubscription) (x : Error)
      → round p r policy ca sender publisher type_id predicate value e w ≡ (w', err x)
      → run_rounds (e ∷ l) w ≡ (w', err x)
  unfolding rounds ◌>>=◌
  rounds-failed w w' e l x h = rw h refl

  -- A one-shot subscription under this key that the publication is for.
  pub taken : MemoryStore → TypeId → AgentId → HandlerId → List StoredSubscription → Bool
  taken s t a h [] = false
  taken s t a h (e ∷ l) =
      (selected s e && (kind_eq e.kind one_shot && addressed t a h e)) || taken s t a h l

  -- The store that the publication started from, and the one before a round.
  pub record AreSame (s s' : MemoryStore) : Type 0 where
    pub settings : s'.environments ≡ s.environments
    pub directory_same : s'.public_keys ≡ s.public_keys

  -- What the frames and the subscriptions are after the rounds.
  pub record IsServedBy (s : MemoryStore) (l : List StoredSubscription) (frames : List Bytes)
      (before after : MemoryStore) : Type 0 where
    pub all_sent : Sent s l frames
    pub subscriptions_after :
        (t : TypeId) (a : AgentId) (h : HandlerId)
        → lookup t a h after ≡ (if taken s t a h l then none else lookup t a h before)

  rounds-nil :
      (w w' : World r) (frames : List Bytes)
      → run_rounds [] w ≡ (w', ok frames)
      → (w ≡ w') × ([] ≡ frames)
  unfolding rounds pure
  rounds-nil w w' frames h = (ap (λ q. q.0) h, ok-injective (ap (λ q. q.1) h))

  -- The first subscription is passed over.
  skipped :
      (s : MemoryStore) (e : StoredSubscription) (l : List StoredSubscription) (frames : List Bytes)
      (before after : MemoryStore)
      → selected s e ≡ false
      → IsServedBy s l frames before after
      → IsServedBy s (e ∷ l) frames before after
  unfolding taken
  skipped s e l frames before after f h = record {
    all_sent = passed e f h.all_sent;
    subscriptions_after = λ t a k.
        h.subscriptions_after t a k
        ∙ ap
            (λ b.
              if (b && (kind_eq e.kind one_shot && addressed t a k e)) || taken s t a k l
              then none
              else lookup t a k before)
            (sym f);
  }

  -- The first subscription is claimed policy directory type_id and gets a frame.
  served_first :
      (s : MemoryStore) (e : StoredSubscription) (l : List StoredSubscription) (frame : Bytes)
      (frames : List Bytes) (before after : MemoryStore)
      → selected s e ≡ true
      → IsDelivery p r policy ca sender publisher type_id predicate value s e frame
      → Unique (subscriptions_for e.type_id before)
      → (claim_subscription e before).1 ≡ true
      → IsServedBy s l frames (claim_subscription e before).0 after
      → IsServedBy s (e ∷ l) (frame ∷ frames) before after
  unfolding taken
  served_first s e l frame frames before after t d u c h = record {
    all_sent = sent e frame t d h.all_sent;
    subscriptions_after = λ ty a k.
        h.subscriptions_after ty a k
        ∙ rw (t, lookup-claim_subscription e before u ty a k, c)
            (nested (kind_eq e.kind one_shot && addressed ty a k e) (taken s ty a k l)
              (lookup ty a k before));
  }
    where
      nested :
          (b c : Bool) (o : Option StoredSubscription)
          → (if c then none else (if b then none else o)) ≡ (if b || c then none else o)
      nested b c o = ground arith

  no_rounds : (s before : MemoryStore) → IsServedBy s [] [] before before
  unfolding taken
  no_rounds s before = record { all_sent = done; subscriptions_after = λ t a k. refl }

  same-claim :
      (s before after : MemoryStore) (e : StoredSubscription) (l : List StoredSubscription)
      → IsAhead policy directory type_id before (e ∷ l)
      → AreSame s before
      → after ≡ (claim_subscription e before).0
      → AreSame s after
  same-claim s before after e l h same eq = record {
    settings =
        ap (λ m. m.environments) eq
        ∙ claim-environments before e (h.served.valid.unique e.type_id)
        ∙ same.settings;
    directory_same =
        ap (λ m. m.public_keys) eq
        ∙ (claim_subscription-IsServed policy directory before h.served e).provisioned
        ∙ sym h.served.provisioned
        ∙ same.directory_same;
  }

  pub rounds-IsServedBy :
      (s : MemoryStore) (l : List StoredSubscription) (w w' : World r) (frames : List Bytes)
      → IsAhead policy directory type_id w.store l
      → AreSame s w.store
      → run_rounds l w ≡ (w', ok frames)
      → IsServedBy s l frames w.store w'.store
  rounds-IsServedBy s [] w w' frames h same run =
      let (ended, empty) = rounds-nil w w' frames run in
      subst (λ (q : World r × List Bytes). IsServedBy s [] q.1 w.store q.0.store)
        (λ i. (ended i, empty i)) (no_rounds s w.store)
  rounds-IsServedBy s (e ∷ l) w w' frames h same run =
      let choice =
        selects-eq p r policy ca sender publisher type_id predicate value s w.store e
          (sym same.settings) in
      let own = h.served.valid.unique e.type_id in
      let c = claimed policy directory type_id w.store e h.served h.entries.0.typed h.held.0 in
      let step =
        round-send p r policy ca sender publisher type_id predicate value directory w h.served e
          h.entries.0 in
      elim (Bool-cases (selected w.store e)) [
        | inr f ↦
            let step' = step ∙ rw f refl in
            let (rest, run', eq) =
              after_rest (run_rounds l w) (push_front none) w' frames
                (sym (rounds-passed w w e l none step') ∙ run) in
            subst (λ fs. IsServedBy s (e ∷ l) fs w.store w'.store) eq
              (skipped s e l rest w.store w'.store (choice ∙ f) (
                rounds-IsServedBy s l w w' rest (ahead-rest policy directory type_id w.store e l h)
                  same run'))
        | inl t ↦
            elim (send-cases p r policy ca sender publisher type_id predicate value directory w
              h.served e h.entries.0 c) [
                | inr (x, w1, _, failed) ↦
                    absurd (
                      cc
                        (ap (λ q. q.1) (sym (rounds-failed w w1 e l x (step ∙ rw t failed)) ∙ run)))
                | inl (frame, w1, d, store, sending) ↦
                    let step' = step ∙ rw t sending in
                    let (rest, run', eq) =
                      after_rest (run_rounds l w1) (push_front (some frame)) w' frames
                        (sym (rounds-passed w w1 e l (some frame) step') ∙ run) in
                    subst (λ fs. IsServedBy s (e ∷ l) fs w.store w'.store) eq
                      (served_first s e l frame rest w.store w'.store (choice ∙ t)
                        (IsDelivery-eq p r policy ca sender publisher type_id predicate value
                          w.store s e frame same.directory_same d)
                        own c
                        (subst (λ m. IsServedBy s l rest m w'.store) store
                          (rounds-IsServedBy s l w1 w' rest
                            (subst (λ m. IsAhead policy directory type_id m l) (sym store)
                              (claim-IsAhead policy directory type_id w.store e l h))
                            (same-claim s w.store w1.store e l h same store) run')))
              ]
      ]
