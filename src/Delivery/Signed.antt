-- ===== src/Delivery/Signed.antt =====
-- A signed post is authentic to whoever reads it.
use aamio_go.Prelude.{
  ◌≡◌, ◌∙◌, refl, ap, true, false, [], Option, none, some, Text, codes, text_eq, lookup, arith,
}
use aamio_go.Errors.{ok}
use aamio_go.External.{External, SignsWell}
use aamio_go.Codec.{is_key, unb64url, trim_pad}
use aamio_go.Codec.Base64
use aamio_go.Codec.Base64.{has_std_char}
use aamio_go.Json.{Fields, as_string, string_or_empty, string}
use aamio_go.Keys.{Keys, from_seed, sign, verify, verify_raw, thread_signing_input}
use aamio_go.Keys.Signing.{verify-sign}
use aamio_go.Client.Message.{text_at}
use aamio_go.Client.Message.Checks.{IsAuthentic}
use aamio_go.Client.Session.Letter.{Letter, post_request}
use aamio_go.Delivery.{Returns, header}

module _ (x : External) where
  -- No empty key and no empty signature verifies.
  verify-no_key : (signature input : Text) → verify x [] signature input ≡ false
  unfolding verify is_key
  verify-no_key signature input = refl

  verify_raw-empty : (key : Option Text) (input : Text) → verify_raw x key (some []) input ≡ false
  unfolding verify_raw
  verify_raw-empty none input = refl
  verify_raw-empty (some key) input = ground arith

  verify-no_signature : (key input : Text) → verify x key [] input ≡ false
  unfolding verify unb64url trim_pad has_std_char Base64.decode
  verify-no_signature key input = ground (arith, verify_raw-empty (unb64url key) input)

  module _ (l : Letter) (k : Keys) (signed : l.signer ≡ some k) (work : Option Text) where
    header-key : header (codes "X-Key") (post_request x l work) ≡ k.public
    unfolding post_request lookup text_eq
    header-key = rw signed refl

    header-signature :
        header (codes "X-Sig") (post_request x l work) ≡ sign x k (thread_signing_input l.w l.body)
    unfolding post_request lookup text_eq
    header-signature = rw signed refl

    body-posted : (post_request x l work).body ≡ some l.body
    unfolding post_request
    body-posted = refl

    module _ (signs : SignsWell x) (seed : Text) (made : from_seed x seed ≡ ok k) (raw : Fields)
        (r : Returns (post_request x l work) raw) where
      verifies :
          verify x
            (text_at (codes "from") raw)
            (text_at (codes "sig") raw)
            (thread_signing_input l.w l.body)
          ≡ true
      verifies =
          rw (r.key, r.signature, header-key, header-signature)
            (verify-sign x seed (thread_signing_input l.w l.body) k signs made)

      same_body : r.body ≡ l.body
      same_body = cc (r.posted, body-posted)

      pub post-IsAuthentic : IsAuthentic x l.w raw
      post-IsAuthentic = record {
        body = l.body;
        has_body = ap as_string (r.returned ∙ ap (λ b. some (string b)) same_body);
        hash = r.hashed ∙ rw same_body;
        named = λ e.
            let input = thread_signing_input l.w l.body in
            cc (verifies, verify-no_key (text_at (codes "sig") raw) input, e);
        signed = λ e.
            let input = thread_signing_input l.w l.body in
            cc (verifies, verify-no_signature (text_at (codes "from") raw) input, e);
        verifies = verifies;
      }

      pub post-from : text_at (codes "from") raw ≡ k.public
      post-from = r.key ∙ header-key

      pub post-body : text_at (codes "body") raw ≡ l.body
      post-body = ap (λ o. string_or_empty (as_string o)) r.returned ∙ same_body
