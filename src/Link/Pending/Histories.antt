-- ===== src/Link/Pending/Histories.antt =====
-- Whole histories of a sender: which frames a reconnection retransmits.
use secure_pub_sub.Prelude.{
  ℕ, ◌≡◌, refl, ◌∙◌, ap, sym, true, false, List, [], ◌∷◌, some, arith, ok, is_some, Member, inl,
  inr, Bool-cases, Option-cases, Bytes, ==_iff, ◌==◌, ℕ-Eq, List-Eq,
}
use secure_pub_sub.Prelude.Map
use secure_pub_sub.Prelude.Keys.{mem}
use secure_pub_sub.Link.Codec.{MessageId}
use secure_pub_sub.Link.Pending.{PendingFrames, insert, acknowledge, retransmit, snapshot}
use secure_pub_sub.Link.Pending.Refines.{
  IsValid, Queue, view, enqueue, dequeue, insert-IsValid, acknowledge-IsValid, view-insert,
  view-acknowledge,
}

-- A frame is acquired, or its acknowledgement arrives.
pub data Event : Type 0 where
  acquires : MessageId → Bytes → Event
  acked : MessageId → Event

unfoldable pub step : PendingFrames → Event → PendingFrames
step p (acquires id encoded) = (insert id encoded p).0
step p (acked id) = (acknowledge id p).0

unfoldable pub run : PendingFrames → List Event → PendingFrames
run p [] = p
run p (e ∷ es) = run (step p e) es

unfoldable pub step_queue : ℕ → Queue → Event → Queue
step_queue maximum q (acquires id encoded) = (enqueue maximum id encoded q).0
step_queue maximum q (acked id) = (dequeue id q).0

unfoldable pub run_queue : ℕ → Queue → List Event → Queue
run_queue maximum q [] = q
run_queue maximum q (e ∷ es) = run_queue maximum (step_queue maximum q e) es

step-IsValid : (p : PendingFrames) (e : Event) → IsValid p → IsValid (step p e)
unfolding step
step-IsValid p (acquires id encoded) v = insert-IsValid id p v encoded
step-IsValid p (acked id) v = acknowledge-IsValid id p v

maximum-step : (p : PendingFrames) (e : Event) → (step p e).maximum ≡ p.maximum
unfolding step insert acknowledge
maximum-step p (acquires id encoded) = ground arith
maximum-step p (acked id) = ground arith

view-step :
    (p : PendingFrames) (e : Event) → IsValid p → view (step p e) ≡ step_queue p.maximum (view p) e
unfolding step step_queue
view-step p (acquires id encoded) v = ap (λ r. r.0) (view-insert p v id encoded)
view-step p (acked id) v = ap (λ r. r.0) (view-acknowledge p v id)

-- After any history the collection is the queue that the same history gives, and its bounds and
-- bookkeeping hold.
pub view-run :
    (p : PendingFrames) (es : List Event)
    → IsValid p
    → (view (run p es) ≡ run_queue p.maximum (view p) es) × IsValid (run p es)
unfolding run run_queue
view-run p [] v = (refl, v)
view-run p (e ∷ es) v =
    let w : IsValid (step p e) = step-IsValid p e v in
    let (same, valid) = view-run (step p e) es w in
    (
      same
          ∙ ap (λ m. run_queue m (view (step p e)) es) (maximum-step p e)
          ∙ ap (λ q. run_queue p.maximum q es) (view-step p e v),
      valid,
    )

-- No event of the history acknowledges the identifier.
abbrev pub NotAcked : MessageId → List Event → Type 0
NotAcked id [] = Unit {0}
NotAcked id (acquires j w ∷ es) = NotAcked id es
NotAcked id (acked j ∷ es) = ((id == j) ≡ false) × NotAcked id es

step_keeps :
    (p : PendingFrames) (id : MessageId) (wired : Bytes) (e : Event) (es : List Event)
    → IsValid p
    → NotAcked id (e ∷ es)
    → Map.get id p.frames ≡ some wired
    → Map.get id (step p e).frames ≡ some wired
unfolding step insert acknowledge Map.contains_key
step_keeps p id wired (acquires j w) es v n h =
    ground (arith, Map.get-insert j id w p.frames, ==_iff id j)
step_keeps p id wired (acked j) es v n h = ground (arith, Map.get-remove j id p.frames v.mapped)

rest-NotAcked :
    (id : MessageId) (e : Event) (es : List Event) → NotAcked id (e ∷ es) → NotAcked id es
rest-NotAcked id (acquires j w) es n = n
rest-NotAcked id (acked j) es n = n.1

kept :
    (p : PendingFrames) (id : MessageId) (wired : Bytes) (es : List Event)
    → IsValid p
    → NotAcked id es
    → Map.get id p.frames ≡ some wired
    → Map.get id (run p es).frames ≡ some wired
unfolding run
kept p id wired [] v n h = h
kept p id wired (e ∷ es) v n h =
    kept (step p e) id wired es (step-IsValid p e v) (rest-NotAcked id e es n)
      (step_keeps p id wired e es v n h)

-- What stands in the order and in the map is sent again.
retransmit-Member :
    (frames : Map.Map MessageId Bytes) (order : List MessageId) (id : MessageId) (wired : Bytes)
    → mem id order ≡ true
    → Map.get id frames ≡ some wired
    → Member wired (retransmit frames order)
unfolding retransmit mem
retransmit-Member frames [] id wired m h = absurd (cc)
retransmit-Member frames (j ∷ order) id wired m h = elim (Bool-cases (id == j)) [
  | inl same ↦
      let here : Map.get j frames ≡ some wired =
        ap (λ k. Map.get k frames) (sym ((==_iff id j).0 same)) ∙ h in
      rw (retransmit, here) (Member.first refl)
  | inr other ↦
      let later = retransmit-Member frames order id wired (ground arith) h in
      elim (Option-cases (Map.get j frames)) [
        | inl absent ↦ rw (retransmit, absent) later
        | inr (w, found) ↦ rw (retransmit, found) (Member.later later)
      ]
]

inserted :
    (p : PendingFrames) (id : MessageId) (wired : Bytes)
    → (insert id wired p).1 ≡ ok tt
    → Map.get id (insert id wired p).0.frames ≡ some wired
unfolding insert
inserted p id wired h = ground (arith, Map.get-insert_self id wired p.frames)

-- In a valid collection, a frame that is accepted is among those that a reconnection retransmits,
-- with its bytes, after any history that does not acknowledge it.
pub run_keeps :
    (p : PendingFrames) (id : MessageId) (wired : Bytes) (es : List Event)
    → IsValid p
    → (insert id wired p).1 ≡ ok tt
    → NotAcked id es
    → Member wired (snapshot (run (insert id wired p).0 es))
unfolding snapshot
run_keeps p id wired es v accepted n =
    let p' = (insert id wired p).0 in
    let valid = (view-run p' es (insert-IsValid id p v wired)).1 in
    let found =
      kept p' id wired es (insert-IsValid id p v wired) n (inserted p id wired accepted) in
    retransmit-Member (run p' es).frames (run p' es).order id wired
      (valid.same id ∙ ap is_some found) found
