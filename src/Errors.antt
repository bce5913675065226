-- ===== src/Errors.antt =====
-- The errors that the calls return, one constructor for each message, and results with them.
use aamio_go.Prelude.{Text}

pub data Error : Type 0 where
  -- address.go
  id_length id_shape scope_key_shape random_failed : Error
  -- keys.go
  seed_length bad_key not_point bad_base64 not_envelope nonce_length does_not_open bad_hex : Error
  sealed_to : Text → Text → Error
  -- gate.go
  work_bits needs_keys : Error
  no_canonical : Text → Error
  -- client.go
  not_an_address sealing_needs_keys too_large bad_json : Error
  -- board.go
  scope_not_read posting_needs_keys scope_is_key answering_needs_keys not_a_post : Error
  withdrawing_needs_keys : Error

pub data Result {ℓ} (A : Type ℓ) : Type ℓ where
  ok : A → Result A
  err : Error → Result A

infixl 5 ◌>>=◌
abbrev pub ◌>>=◌ {ℓ κ} : {A : Type ℓ} {B : Type κ} → Result A → (A → Result B) → Result B
ok a >>= f = f a
err e >>= f = err e
