-- ===== src/Link/Codec.antt =====
-- The frame codec of implementations/rust/crates/infrastructure-link/src/lib.rs.
pub mod RoundTrip
use secure_pub_sub.Prelude.{
  ℕ, ◌+◌, ◌^◌, Bool, true, false, ◌&&◌, not, List, [], ◌∷◌, ◌++◌, leb, ltb, nat_eq, ◌==◌, ℕ-Eq,
  List-Eq, length, drop, slice, index, Bytes, be_bytes, be_value, Result, ok, err, ensure,
  if◌then◌else◌, ◌>>=◌, ◌>>◌,
}
use secure_pub_sub.Protocol.Types.{max_frame_len}

abbrev pub link_header_len : ℕ
link_header_len = 28

abbrev pub max_link_frame_len : ℕ
max_link_frame_len = link_header_len + max_frame_len

-- b"SPLK"
abbrev pub link_magic : Bytes
link_magic = b'S' ∷ b'P' ∷ b'L' ∷ b'K' ∷ []

abbrev pub link_version : ℕ
link_version = 1

-- A newtype over 16 bytes.
abbrev pub MessageId : Type 0
MessageId = Bytes

pub data FrameKind : Type 0 where
  request delivery ack auth_challenge auth_response auth_ok : FrameKind

pub data LinkError : Type 0 where
  invalid_frame oversized queue_full authentication : LinkError

-- `kind as u8`
abbrev pub kind_byte : FrameKind → ℕ
kind_byte request = 1
kind_byte delivery = 2
kind_byte ack = 3
kind_byte auth_challenge = 4
kind_byte auth_response = 5
kind_byte auth_ok = 6

-- `FrameKind::parse`
abbrev pub parse_kind : ℕ → Result LinkError FrameKind
parse_kind b =
    if nat_eq b 1
    then ok request
    else if nat_eq b 2
    then ok delivery
    else if nat_eq b 3
    then ok ack
    else if nat_eq b 4
    then ok auth_challenge
    else if nat_eq b 5
    then ok auth_response
    else if nat_eq b 6
    then ok auth_ok
    else err invalid_frame

-- `matches!(kind, FrameKind::Ack | FrameKind::AuthOk)`
abbrev pub is_bodiless : FrameKind → Bool
is_bodiless ack = true
is_bodiless auth_ok = true
is_bodiless _ = false

pub record LinkFrame : Type 0 where
  pub kind : FrameKind
  pub id : MessageId
  pub payload : Bytes

abbrev pub is_empty : Bytes → Bool
is_empty [] = true
is_empty (b ∷ bs) = false

-- The bytes of a frame, in the order in which `encode` pushes them.
abbrev pub wire : FrameKind → MessageId → Bytes → Bytes
wire kind id payload =
    link_magic
    ++ (link_version ∷ kind_byte kind ∷ 0 ∷ 0 ∷ (id ++ (be_bytes 4 (length payload) ++ payload)))

unfoldable pub encode : FrameKind → MessageId → Bytes → Result LinkError Bytes
encode kind id payload = do
  ensure (leb (length payload) max_frame_len) oversized
  ensure (not (is_bodiless kind && not (is_empty payload))) invalid_frame
  ensure (ltb (length payload) (2 ^ 32)) oversized
  ok (wire kind id payload)

-- A `usize` has 64 bits, so the checked sum of the header's and a `u32` length does not overflow.
unfoldable pub decode : Bytes → Result LinkError LinkFrame
decode input = do
  ensure (leb link_header_len (length input)) invalid_frame
  ensure (leb (length input) max_link_frame_len) oversized
  ensure
      (slice input 0 4 == link_magic
        && nat_eq (index input 4 0) link_version
        && slice input 6 8 == 0 ∷ 0 ∷ [])
      invalid_frame
  kind ← parse_kind (index input 5 0)
  let payload_len = be_value (slice input 24 28)
  ensure (nat_eq (link_header_len + payload_len) (length input) && leb payload_len max_frame_len)
      invalid_frame
  let payload = drop link_header_len input
  ensure (not (is_bodiless kind && not (is_empty payload))) invalid_frame
  ok (record { kind = kind; id = slice input 8 24; payload = payload })
