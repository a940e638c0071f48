-- ===== src/Protocol/Types.antt =====
-- implementations/rust/crates/protocol-core/src/types.rs: constants, identifiers and enumerations.
use secure_pub_sub.Prelude.{
  ℕ, ◌+◌, ◌≡◌, Bool, [], ◌∷◌, Option, none, some, Bytes, nat_eq, if◌then◌else◌, arith,
}

-- b"SPUBSUB\0"
abbrev pub magic : Bytes
magic = b'S' ∷ b'P' ∷ b'U' ∷ b'B' ∷ b'S' ∷ b'U' ∷ b'B' ∷ 0 ∷ []

abbrev pub version : ℕ
version = 1

abbrev pub header_len : ℕ
header_len = 148

abbrev pub tag_len : ℕ
tag_len = 16

abbrev pub signature_len : ℕ
signature_len = 64

abbrev pub max_plaintext_len : ℕ
max_plaintext_len = 4096

abbrev pub max_frame_len : ℕ
max_frame_len = header_len + max_plaintext_len + tag_len + signature_len

abbrev pub max_attributes : ℕ
max_attributes = 16

abbrev pub max_clauses : ℕ
max_clauses = 8

abbrev pub max_attribute_bytes : ℕ
max_attribute_bytes = 64

abbrev pub max_value_bytes : ℕ
max_value_bytes = 3072

-- The identifiers are newtypes over 16 bytes, and over a `u32` and a `u16`.
abbrev pub AgentId : Type 0
AgentId = Bytes

abbrev pub SessionId : Type 0
SessionId = Bytes

abbrev pub HandlerId : Type 0
HandlerId = Bytes

abbrev pub TypeId : Type 0
TypeId = ℕ

abbrev pub AttributeId : Type 0
AttributeId = ℕ

abbrev pub zero_id : Bytes
zero_id = 0 ∷ 0 ∷ 0 ∷ 0 ∷ 0 ∷ 0 ∷ 0 ∷ 0 ∷ 0 ∷ 0 ∷ 0 ∷ 0 ∷ 0 ∷ 0 ∷ 0 ∷ 0 ∷ []

-- `AgentId::CA`
abbrev pub ca_id : AgentId
ca_id = zero_id

-- `HandlerId::NONE`
abbrev pub no_handler : HandlerId
no_handler = zero_id

pub data MessageType : Type 0 where
  set_environment subscribe_permanent publish publication_response subscribe : MessageType

-- `message_type as u8`
abbrev pub message_byte : MessageType → ℕ
message_byte set_environment = 1
message_byte subscribe_permanent = 2
message_byte publish = 3
message_byte publication_response = 4
message_byte subscribe = 5

-- `MessageType::from_u8`
abbrev pub message_from_u8 : ℕ → Option MessageType
message_from_u8 b =
    if nat_eq b 1
    then some set_environment
    else if nat_eq b 2
    then some subscribe_permanent
    else if nat_eq b 3
    then some publish
    else if nat_eq b 4
    then some publication_response
    else if nat_eq b 5
    then some subscribe
    else none

abbrev pub message_eq : MessageType → MessageType → Bool
message_eq a b = nat_eq (message_byte a) (message_byte b)

-- `MessageType::direction`
abbrev pub direction : MessageType → ℕ
direction publication_response = 2
direction _ = 1

pub data Operator : Type 0 where
  eq ne lt le gt ge : Operator

-- `operator as u8`
abbrev pub operator_byte : Operator → ℕ
operator_byte eq = 1
operator_byte ne = 2
operator_byte lt = 3
operator_byte le = 4
operator_byte gt = 5
operator_byte ge = 6

-- `Operator::from_u8`
abbrev pub operator_from_u8 : ℕ → Option Operator
operator_from_u8 b =
    if nat_eq b 1
    then some eq
    else if nat_eq b 2
    then some ne
    else if nat_eq b 3
    then some lt
    else if nat_eq b 4
    then some le
    else if nat_eq b 5
    then some gt
    else if nat_eq b 6
    then some ge
    else none

pub data Error : Type 0 where
  malformed unsupported_version oversized bad_signature replay crypto_failure wrong_recipient :
      Error
  wrong_message_type wrong_handler random_failure capacity unauthorized_environment : Error

pub message_from_u8-message_byte : (t : MessageType) → message_from_u8 (message_byte t) ≡ some t
message_from_u8-message_byte t = ground arith

pub message_byte-message_from_u8 :
    (b : ℕ) (t : MessageType) → message_from_u8 b ≡ some t → b ≡ message_byte t
message_byte-message_from_u8 b t h = ground arith

pub operator_from_u8-operator_byte : (o : Operator) → operator_from_u8 (operator_byte o) ≡ some o
operator_from_u8-operator_byte o = ground arith

pub operator_byte-operator_from_u8 :
    (b : ℕ) (o : Operator) → operator_from_u8 b ≡ some o → b ≡ operator_byte o
operator_byte-operator_from_u8 b o h = ground arith
