-- ===== src/Client/Message/Checks.antt =====
-- When CheckMessage calls a message verified, and what it says when it does not.
use aamio_go.Prelude.{
  ◌≡◌, ◌≢◌, ◌↔◌, ◌⊎◌, inl, inr, refl, true, false, ◌||◌, [], Option, none, some, Text, codes,
  text_eq_iff, is_empty, arith, Bool-cases,
}
use aamio_go.Json.{Fields, get, as_string}
use aamio_go.Codec.{sha256_hex}
use aamio_go.External.{External}
use aamio_go.Keys.{verify, thread_signing_input}
use aamio_go.Client.Message.{text_at, bool_at, check_signature, check_body, check_message}

module _ (x : External) (w : Text) (raw : Fields) where
  -- The message has a body, the hash beside it is the body's, and it names a key whose signature
  -- over this address and these bytes verifies.
  pub record IsAuthentic : Type 0 where
    pub body : Text
    pub has_body : as_string (get (codes "body") raw) ≡ some body
    pub hash : text_at (codes "sha256") raw ≡ sha256_hex body
    pub named : text_at (codes "from") raw ≢ []
    pub signed : text_at (codes "sig") raw ≢ []
    pub verifies :
        verify x
          (text_at (codes "from") raw)
          (text_at (codes "sig") raw)
          (thread_signing_input w body)
        ≡ true

  from_verified :
      (o : Option Text)
      → as_string (get (codes "body") raw) ≡ o
      → (check_body x w raw o).verified ≡ true
      → IsAuthentic
  unfolding check_body check_signature
  from_verified none e h = cc
  from_verified (some text) e h =
      let same = text_eq_iff (text_at (codes "sha256") raw) (sha256_hex text) in
      record {
        body = text;
        has_body = e;
        hash = ground (arith, same);
        named = ground arith;
        signed = ground arith;
        verifies = ground arith;
      }

  to_verified : (a : IsAuthentic) → (check_body x w raw (some a.body)).verified ≡ true
  unfolding check_body check_signature
  to_verified a = ground (
    arith,
    text_eq_iff (text_at (codes "sha256") raw) (sha256_hex a.body),
    a.hash,
    a.named,
    a.signed,
    a.verifies,
  )

  -- A message is called verified here exactly when it is authentic. The service's own `verified`
  -- plays no part.
  pub check_message_iff : ((check_message x w raw).verified ≡ true) ↔ IsAuthentic
  unfolding check_message
  check_message_iff = (
    λ h. from_verified (as_string (get (codes "body") raw)) refl h,
    λ a. rw a.has_body (to_verified a),
  )

  -- An ordinary unsigned message: its hash is right, it lacks a key or a signature, and the
  -- service did not call it verified.
  pub record IsUnsigned : Type 0 where
    pub body : Text
    pub has_body : as_string (get (codes "body") raw) ≡ some body
    pub hash : text_at (codes "sha256") raw ≡ sha256_hex body
    pub unsigned : (text_at (codes "from") raw ≡ []) ⊎ (text_at (codes "sig") raw ≡ [])
    pub unclaimed : bool_at (codes "verified") raw ≡ false

  from_silent :
      (o : Option Text)
      → as_string (get (codes "body") raw) ≡ o
      → (check_body x w raw o).why_not ≡ none
      → ((check_body x w raw o).verified ≡ true) ⊎ IsUnsigned
  unfolding check_body check_signature
  from_silent none e h = cc
  from_silent (some text) e h =
      let from = text_at (codes "from") raw in
      let sig = text_at (codes "sig") raw in
      let same = text_eq_iff (text_at (codes "sha256") raw) (sha256_hex text) in
      elim (Bool-cases (is_empty from || is_empty sig)) [
        | inl u ↦ inr (record {
          body = text;
          has_body = e;
          hash = ground (arith, same);
          unsigned = ground arith;
          unclaimed = ground arith;
        })
        | inr s ↦ inl (ground arith)
      ]

  to_silent : (a : IsUnsigned) → (check_body x w raw (some a.body)).why_not ≡ none
  unfolding check_body check_signature
  to_silent a = ground (
    arith,
    text_eq_iff (text_at (codes "sha256") raw) (sha256_hex a.body),
    a.hash,
    a.unsigned,
    a.unclaimed,
  )

  verified_silent :
      (o : Option Text)
      → (check_body x w raw o).verified ≡ true
      → (check_body x w raw o).why_not ≡ none
  unfolding check_body check_signature
  verified_silent none h = cc
  verified_silent (some text) h = ground arith

  -- No reason is given exactly for a message that is verified here and for an ordinary unsigned
  -- one. Everything else is explained.
  pub why_not_iff :
      ((check_message x w raw).why_not ≡ none)
      ↔ (((check_message x w raw).verified ≡ true) ⊎ IsUnsigned)
  unfolding check_message
  why_not_iff = (
    from_silent (as_string (get (codes "body") raw)) refl,
    elim [ inl v ↦ verified_silent _ v | inr a ↦ rw a.has_body (to_silent a) ],
  )
