-- ===== src/Protocol/Crypto/Tests.antt =====
-- Runs of the cryptography over the concrete primitives, and the theorems at concrete inputs.
use secure_pub_sub.Prelude.{
  ◌≡◌, refl, ap, ◌≢◌, [], ◌∷◌, ◌++◌, arith, take, replicate, Bytes, ok, err, ok_or, index, be_bytes,
  be_value, list_eq, ◌>>=◌,
}
use secure_pub_sub.Protocol.Types.{
  ca_id, no_handler, subscribe, publish, wrong_recipient, bad_signature, crypto_failure,
}
use secure_pub_sub.Protocol.Codec.{EnvelopeRef, parse_envelope, encode_header}
use secure_pub_sub.Protocol.Codec.Canonical.{header_of}
use secure_pub_sub.Protocol.Primitives.Toy.{toy, toy-IsSound}
use secure_pub_sub.Protocol.Crypto.{
  seal_in_place, open_in_place, derive_key_nonce, key_label, nonce_label,
}
use secure_pub_sub.Protocol.Crypto.Context.{
  AreFixed, context_bytes, context_bytes-injective, derive-eq,
}
use secure_pub_sub.Protocol.Crypto.Opens.{Authentic, open-Authentic}
use secure_pub_sub.Protocol.Crypto.RoundTrip.{open-seal_in_place}

abbrev alice : Bytes
alice = 7 ∷ replicate 15 0

abbrev session : Bytes
session = replicate 16 9

abbrev salt : Bytes
salt = replicate 32 5

-- The secrets: the first byte is what the concrete primitives use.
abbrev ephemeral : Bytes
ephemeral = 11 ∷ []

abbrev secret : Bytes
secret = 23 ∷ []

abbrev signing : Bytes
signing = 42 ∷ []

abbrev buffer : Bytes
buffer = replicate 148 0 ++ (1 ∷ 2 ∷ 3 ∷ replicate 81 0)

abbrev public : Bytes
public = toy.x25519_public ephemeral

fixed : AreFixed alice ca_id session public
fixed = record {
  sender_width = refl;
  recipient_width = refl;
  session_width = refl;
  key_width = refl;
}

-- The domains keep the contexts of two message types apart.
separate :
    context_bytes publish alice ca_id session public
    ≢ context_bytes subscribe alice ca_id session public
separate h = cc (
    (context_bytes-injective publish subscribe alice ca_id session public alice ca_id session public
      fixed fixed h).0)

context_bytes-injective_example :
    (publish ≡ publish)
    × (alice ≡ alice)
    × (ca_id ≡ ca_id)
    × (public ≡ public)
    × (session ≡ session)
context_bytes-injective_example =
    context_bytes-injective publish publish alice ca_id session public alice ca_id session public
      fixed fixed refl

derive-eq_example :
    derive_key_nonce toy (replicate 32 1) salt publish alice ca_id session public ≡ (do
      key ←
          ok_or
            (toy.expand salt
              (replicate 32 1)
              (context_bytes publish alice ca_id session public ++ key_label)
              32)
            crypto_failure
      nonce ←
          ok_or
            (toy.expand salt
              (replicate 32 1)
              (context_bytes publish alice ca_id session public ++ nonce_label)
              12)
            crypto_failure
      ok (key, nonce))
derive-eq_example = derive-eq publish alice ca_id session public fixed toy (replicate 32 1) salt

open-seal_in_place_example :
    (output : Bytes) × (seal_in_place toy buffer 3 publish alice ca_id no_handler session salt
        ephemeral
        (toy.x25519_public secret)
        signing
      ≡ ok (output, 231))
    × (open_in_place toy (take 231 output) ca_id publish (toy.verifying_key signing) secret
        ≡ ok (1 ∷ 2 ∷ 3 ∷ []))
    × (e : EnvelopeRef) × (parse_envelope (take 231 output) ≡ ok e)
    × (header_of e ≡ record {
      message_type = publish;
      sender = alice;
      recipient = ca_id;
      handler = no_handler;
      session_id = session;
      ephemeral_public = public;
      salt = salt;
    })
open-seal_in_place_example =
    open-seal_in_place toy toy-IsSound buffer 3 publish alice ca_id no_handler session salt
      ephemeral secret signing
      (record {
        sender = refl;
        recipient = refl;
        handler = refl;
        session_id = refl;
        ephemeral_public = refl;
        salt = refl;
      })
      (omega arith) (omega arith) (λ zero. absurd (omega (arith, ap (λ b. index b 0 0) zero)))

abbrev frame : Bytes
frame =
    elim (seal_in_place toy buffer 3 publish alice ca_id no_handler session salt ephemeral
      (toy.x25519_public secret) signing) [ ok r ↦ take r.1 r.0 | err e ↦ [] ]

opens :
    open_in_place toy frame ca_id publish (toy.verifying_key signing) secret ≡ ok (1 ∷ 2 ∷ 3 ∷ [])
unfolding seal_in_place open_in_place parse_envelope encode_header be_bytes list_eq be_value
opens = refl

foreign :
    open_in_place toy frame alice publish (toy.verifying_key signing) secret ≡ err wrong_recipient
unfolding seal_in_place open_in_place parse_envelope encode_header be_bytes list_eq be_value
foreign = refl

forged :
    open_in_place toy frame ca_id publish (toy.verifying_key (1 ∷ [])) secret ≡ err bad_signature
unfolding seal_in_place open_in_place parse_envelope encode_header be_bytes list_eq be_value
forged = refl

open-Authentic_example :
    (e : EnvelopeRef) × (parse_envelope frame ≡ ok e)
    × Authentic toy ca_id publish (toy.verifying_key signing) secret e (1 ∷ 2 ∷ 3 ∷ [])
open-Authentic_example =
    open-Authentic toy frame ca_id publish (toy.verifying_key signing) secret opens
