-- ===== src/Keys.antt =====
-- keys.go: identities, signing inputs, signatures, sealing and opening.
pub mod Signing
pub mod Sealing
pub mod Tests
use Prim.Native.Nat.{bit_and, bit_or}
use aamio_go.Prelude.{
  ℕ, ◌+◌, Bool, true, false, ◌&&◌, not, [], ◌∷◌, ◌++◌, Option, none, some, Text, codes, length,
  take, text_eq, is_empty, ◌==◌, if◌then◌else◌,
}
use aamio_go.Errors.{
  Error, Result, ok, err, ◌>>=◌, seed_length, bad_key, not_point, bad_base64, not_envelope,
  nonce_length, does_not_open, sealed_to, bad_hex, random_failed,
}
use aamio_go.Codec.{b64url, unb64url, sha256_hex, is_key}
use aamio_go.Codec.Hex
use aamio_go.External.{External, Envelope}

abbrev pub envelope_name : Text
envelope_name = codes "nacl.box.v1"

-- The private key is the seed with its public half, so the seed stands for it.
pub record Keys : Type 0 where
  pub seed : Text
  pub curve_secret : Text
  pub public : Text
  pub hash : Text
  pub hash_prefix : Text

-- The clamping of byte 0 and byte 31: `&= 248`, `&= 127`, `|= 64`.
abbrev clamp_last : ℕ → Text → Text
clamp_last n [] = []
clamp_last n (b ∷ s) = (if n == 31 then bit_or (bit_and b 127) 64 else b) ∷ clamp_last (1 + n) s

abbrev pub clamp : Text → Text
clamp [] = []
clamp (b ∷ s) = bit_and b 248 ∷ clamp_last 1 s

module _ (x : External) where
  -- libsodium's crypto_sign_ed25519_sk_to_curve25519
  unfoldable pub curve_secret_of : Text → Text
  curve_secret_of seed = clamp (take 32 (x.sha512 seed))

  unfoldable pub from_seed : Text → Result Keys
  from_seed seed =
      if length seed == 32
      then ok (record {
        seed = seed;
        curve_secret = curve_secret_of seed;
        public = b64url (x.public_of seed);
        hash = sha256_hex (x.public_of seed);
        hash_prefix = take 8 (sha256_hex (x.public_of seed));
      })
      else err seed_length

  unfoldable pub sign : Keys → Text → Text
  sign k input = b64url (x.sign k.seed input)

  unfoldable pub verify_raw : Option Text → Option Text → Text → Bool
  verify_raw (some pub_key) (some sig) input =
      length pub_key == 32 && length sig == 64 && x.ed25519_verify pub_key input sig
  verify_raw _ _ input = false

  unfoldable pub verify : Text → Text → Text → Bool
  unfolding verify_raw
  verify key signature input = is_key key && verify_raw (unb64url key) (unb64url signature) input

unfoldable pub signing_input : Text → Text → Text → Text
signing_input name subject body = name ++ b'\n' ∷ (subject ++ b'\n' ∷ sha256_hex body)

abbrev pub thread_name : Text
thread_name = codes "aamio-v1"

abbrev pub presence_name : Text
presence_name = codes "aamio-presence-v1"

abbrev pub presence_delete_name : Text
presence_delete_name = codes "aamio-presence-delete-v1"

abbrev pub board_name : Text
board_name = codes "aamio-board-v1"

abbrev pub board_delete_name : Text
board_delete_name = codes "aamio-board-delete-v1"

unfoldable pub thread_signing_input : Text → Text → Text
thread_signing_input w body = signing_input thread_name w body

unfoldable pub presence_signing_input : Text → Text → Text
presence_signing_input key body = signing_input presence_name key body

unfoldable pub presence_delete_signing_input : Text → Text → Text
presence_delete_signing_input key body = signing_input presence_delete_name key body

unfoldable pub board_signing_input : Text → Text → Text
board_signing_input key body = signing_input board_name key body

unfoldable pub board_delete_signing_input : Text → Text → Text
board_delete_signing_input id body = signing_input board_delete_name id body

unfoldable pub hash_prefix_of : Text → Result Text
hash_prefix_of key = elim (unb64url key) [
  | none ↦ err bad_base64
  | some raw ↦ ok (take 8 (sha256_hex raw))
]

abbrev pub result_or_empty : Result Text → Text
result_or_empty (ok s) = s
result_or_empty (err e) = []

-- EnvelopeTo: the recipient that an envelope names, or the empty text.
unfoldable pub envelope_to : External → Text → Text
envelope_to x body = elim (x.decode_recipient body) [
  | none ↦ []
  | some (e2ee, to) ↦ if is_empty e2ee then [] else to
]

unfoldable pub is_envelope : External → Text → Bool
is_envelope x body = elim (x.decode_envelope body) [
  | none ↦ false
  | some e ↦ text_eq e.e2ee envelope_name && not (is_empty e.nonce) && not (is_empty e.ct)
]

abbrev pub or_error {ℓ} : {A : Type ℓ} → Error → Option A → Result A
or_error e none = err e
or_error e (some a) = ok a

abbrev pub require : Bool → Error → Result (Unit {0})
require true e = ok tt
require false e = err e

infixl 5 ◌>>◌
abbrev ◌>>◌ : {B : Type 0} → Result (Unit {0}) → Result B → Result B
m >> k = m >>= λ _. k

module _ (x : External) where
  unfoldable pub curve_public : Text → Result Text
  curve_public key = do
    require (is_key key) bad_key
    raw ← or_error bad_base64 (unb64url key)
    or_error not_point (x.montgomery raw)

  -- The nonce is what rand.Read gave.
  unfoldable pub seal : Keys → Text → Text → Text → Result Text
  seal k recipient plaintext nonce = do
    peer ← curve_public recipient
    ok (
        x.encode_envelope (record {
          e2ee = envelope_name;
          to = result_or_empty (hash_prefix_of recipient);
          nonce = b64url nonce;
          ct = b64url (x.box_seal plaintext nonce peer k.curve_secret);
        }))

  unfoldable pub open_envelope : Keys → Text → Envelope → Result Text
  open_envelope k sender e = do
    require (text_eq e.e2ee envelope_name) not_envelope
    require (text_eq e.to k.hash_prefix) (sealed_to e.to k.hash_prefix)
    peer ← curve_public sender
    nonce ← or_error nonce_length (unb64url e.nonce)
    require (length nonce == 24) nonce_length
    ct ← or_error bad_base64 (unb64url e.ct)
    or_error does_not_open (x.box_open ct nonce peer k.curve_secret)

  unfoldable pub open_sealed : Keys → Text → Text → Result Text
  open_sealed k sender text = do
    e ← or_error not_envelope (x.decode_envelope text)
    open_envelope k sender e

  unfoldable pub from_seed_hex : Text → Result Keys
  unfolding from_seed
  from_seed_hex s = do seed ← or_error bad_hex (Hex.decode s); from_seed x seed

  -- What the system's CSPRNG gives for a seed; none is a failed read.
  unfoldable pub generate : Option Text → Result Keys
  unfolding from_seed
  generate random = do seed ← or_error random_failed random; from_seed x seed

-- The seed is copied, and texts are not shared here.
abbrev pub seed_of : Keys → Text
seed_of k = k.seed
