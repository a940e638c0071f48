-- ===== src/Broker/Channel.antt =====
-- The operations of `tokio::sync::mpsc` that the broker calls, and what their documentation says.
use secure_pub_sub.Prelude.{
  ℕ, ◌≤◌, ◌<◌, ◌≡◌, refl, Bool, true, false, List, [], ◌∷◌, ◌++◌, Option, none, some, arith, leb,
  length, Bytes, Result, ok, err, if◌then◌else◌,
}

pub data TrySendError : Type 0 where
  full closed : TrySendError

-- A channel stands for both of its ends; `close` is the drop of the receiver.
pub record Mpsc : Type 1 where
  pub Channel : Type 0
  pub channel : ℕ → Channel
  pub try_send : Bytes → Channel → Channel × Result TrySendError (Unit {0})
  pub try_recv : Channel → Channel × Option Bytes
  pub close : Channel → Channel

-- A bounded channel keeps the frames in the order in which they were sent.
pub record IsBounded (m : Mpsc) : Type 0 where
  pub buffer : m.Channel → List Bytes
  pub capacity : m.Channel → ℕ
  pub is_closed : m.Channel → Bool
  pub buffer-channel : (n : ℕ) → buffer (m.channel n) ≡ []
  pub capacity-channel : (n : ℕ) → capacity (m.channel n) ≡ n
  pub is_closed-channel : (n : ℕ) → is_closed (m.channel n) ≡ false
  pub send_closed :
      (frame : Bytes) (c : m.Channel) → is_closed c ≡ true → m.try_send frame c ≡ (c, err closed)
  pub send_full :
      (frame : Bytes) (c : m.Channel)
      → is_closed c ≡ false
      → capacity c ≤ length (buffer c)
      → m.try_send frame c ≡ (c, err full)
  pub send_room :
      (frame : Bytes) (c : m.Channel)
      → is_closed c ≡ false
      → length (buffer c) < capacity c
      → ((m.try_send frame c).1 ≡ ok tt)
        × (buffer (m.try_send frame c).0 ≡ buffer c ++ frame ∷ [])
        × (capacity (m.try_send frame c).0 ≡ capacity c)
        × (is_closed (m.try_send frame c).0 ≡ false)
  pub recv_empty : (c : m.Channel) → buffer c ≡ [] → m.try_recv c ≡ (c, none)
  pub recv_front :
      (c : m.Channel) (frame : Bytes) (rest : List Bytes)
      → buffer c ≡ frame ∷ rest
      → ((m.try_recv c).1 ≡ some frame)
        × (buffer (m.try_recv c).0 ≡ rest)
        × (capacity (m.try_recv c).0 ≡ capacity c)
        × (is_closed (m.try_recv c).0 ≡ is_closed c)
  pub is_closed-close : (c : m.Channel) → is_closed (m.close c) ≡ true
  pub capacity-close : (c : m.Channel) → capacity (m.close c) ≡ capacity c
  pub length-close : (c : m.Channel) → length (buffer (m.close c)) ≤ length (buffer c)

-- A channel that keeps its frames in a list.
pub record Queue : Type 0 where
  pub frames : List Bytes
  pub room : ℕ
  pub dropped : Bool

abbrev pub queue_send : Bytes → Queue → Queue × Result TrySendError (Unit {0})
queue_send frame q =
    if q.dropped
    then (q, err closed)
    else if leb q.room (length q.frames)
    then (q, err full)
    else (record q { frames = q.frames ++ frame ∷ [] }, ok tt)

abbrev front : List Bytes → Queue → Queue × Option Bytes
front [] q = (q, none)
front (frame ∷ rest) q = (record q { frames = rest }, some frame)

abbrev pub queue_mpsc : Mpsc
queue_mpsc = record {
  Channel = Queue;
  channel = λ n. record { frames = []; room = n; dropped = false };
  try_send = queue_send;
  try_recv = λ q. front q.frames q;
  close = λ q. record q { dropped = true };
}

abbrev pub queue_mpsc-IsBounded : IsBounded queue_mpsc
queue_mpsc-IsBounded = record {
  buffer = λ q. q.frames;
  capacity = λ q. q.room;
  is_closed = λ q. q.dropped;
  buffer-channel = λ n. refl;
  capacity-channel = λ n. refl;
  is_closed-channel = λ n. refl;
  send_closed = λ frame q h. ground arith;
  send_full = λ frame q h l. ground arith;
  send_room = λ frame q h l. ground arith;
  recv_empty = λ q h. rw h refl;
  recv_front = λ q frame rest h. rw h (refl, refl, refl, refl);
  is_closed-close = λ q. refl;
  capacity-close = λ q. refl;
  length-close = λ q. omega arith;
}
