-- ===== src/Link/Tests.antt =====
-- Runs of the link's operations at concrete inputs, after the tests of
-- implementations/rust/crates/infrastructure-link/src/lib.rs.
use secure_pub_sub.Prelude.{
  ℕ, ◌≡◌, ◌++◌, replicate, Member, refl, true, [], ◌∷◌, arith, length, Bytes, list_eq, be_bytes,
  be_value, ok, err, ◌↔◌, ℕ-Eq, List-Eq,
}
use secure_pub_sub.Prelude.Map
use secure_pub_sub.Link.Codec.{
  request, encode, decode, LinkFrame, MessageId, wire, authentication, queue_full,
}
use secure_pub_sub.Link.Codec.RoundTrip.{decode-encode, encode-decode}
use secure_pub_sub.Link.Pending
use secure_pub_sub.Link.Pending.{PendingFrames}
use secure_pub_sub.Link.Pending.Refines.{IsValid, view, new-IsValid, insert-IsValid}
use secure_pub_sub.Link.Pending.Histories.{acquires, acked, run, run_queue, view-run, run_keeps}
use secure_pub_sub.Link.Dedup
use secure_pub_sub.Link.Dedup.Window
use secure_pub_sub.Link.Dedup.Memory.{acquire, contains-acquire}
use secure_pub_sub.Link.Auth.{hmac, label, verify_authentication, verify_authentication_iff}

abbrev id_of : ℕ → MessageId
id_of b = b ∷ b ∷ b ∷ b ∷ b ∷ b ∷ b ∷ b ∷ b ∷ b ∷ b ∷ b ∷ b ∷ b ∷ b ∷ b ∷ []

abbrev opaque : Bytes
opaque = b'o' ∷ b'p' ∷ b'a' ∷ b'q' ∷ b'u' ∷ b'e' ∷ []

abbrev frame : LinkFrame
frame = record { kind = request; id = id_of 7; payload = opaque }

encode_request : encode request (id_of 7) opaque ≡ ok (wire request (id_of 7) opaque)
unfolding encode
encode_request = refl

decode-encode_example : decode (wire request (id_of 7) opaque) ≡ ok frame
decode-encode_example =
    decode-encode request (id_of 7) opaque (wire request (id_of 7) opaque) refl encode_request

encode-decode_example :
    (encode request (id_of 7) opaque ≡ ok (wire request (id_of 7) opaque)) × (length (id_of 7) ≡ 16)
unfolding be_bytes
encode-decode_example =
    encode-decode (wire request (id_of 7) opaque) frame (omega arith) decode-encode_example

-- The room of one frame, taken.
abbrev one : PendingFrames
one = (Pending.insert (id_of 1) (1 ∷ []) (Pending.new 1)).0

one-IsValid : IsValid one
one-IsValid = insert-IsValid (id_of 1) (Pending.new 1) (new-IsValid 1) (1 ∷ [])

one_is_full : (Pending.insert (id_of 2) (2 ∷ []) one).1 ≡ err queue_full
unfolding Pending.insert Pending.new Map.contains_key Map.get Map.insert list_eq
one_is_full = refl

view-run_example :
    (view (run one (acked (id_of 1) ∷ acquires (id_of 2) (2 ∷ []) ∷ []))
      ≡ run_queue one.maximum (view one) (acked (id_of 1) ∷ acquires (id_of 2) (2 ∷ []) ∷ []))
    × IsValid (run one (acked (id_of 1) ∷ acquires (id_of 2) (2 ∷ []) ∷ []))
view-run_example = view-run one (acked (id_of 1) ∷ acquires (id_of 2) (2 ∷ []) ∷ []) one-IsValid

run_keeps_example : Member (4 ∷ []) (
    Pending.snapshot (
      run
        (Pending.insert (id_of 4) (4 ∷ []) (Pending.new 2)).0
        (acked (id_of 2) ∷ acquires (id_of 3) (3 ∷ []) ∷ [])))
unfolding Pending.insert Pending.new Map.contains_key Map.get Map.insert list_eq
run_keeps_example =
    run_keeps (Pending.new 2) (id_of 4) (4 ∷ [])
      (acked (id_of 2) ∷ acquires (id_of 3) (3 ∷ []) ∷ []) (new-IsValid 2) refl (refl, tt)

contains-acquire_example :
    Dedup.contains (id_of 1) (acquire (Dedup.insert (id_of 1) (Dedup.new 2)).0 (id_of 2 ∷ []))
    ≡ true
unfolding Dedup.contains Dedup.new Map.contains_key Map.get
contains-acquire_example =
    contains-acquire (Dedup.new 2) (id_of 1) (id_of 2 ∷ []) (Window.new-IsValid 2) refl
      (omega arith)

-- A stand-in for the digest.
abbrev digest : Bytes → Bytes
digest bs = be_bytes 4 (be_value bs)

abbrev thirty_two : ℕ → Bytes
thirty_two b = replicate 32 b

verify_authentication_iff_example :
    ((verify_authentication digest (thirty_two 3) (thirty_two 9) (thirty_two 0) ≡ ok tt)
      ↔ (thirty_two 0 ≡ hmac digest (thirty_two 3) (label ++ thirty_two 9)))
    × ((verify_authentication digest (thirty_two 3) (thirty_two 9) (thirty_two 0)
          ≡ err authentication)
        ↔ (¬ (thirty_two 0 ≡ hmac digest (thirty_two 3) (label ++ thirty_two 9))))
verify_authentication_iff_example =
    verify_authentication_iff digest (thirty_two 3) (thirty_two 9) (thirty_two 0) (omega arith)
