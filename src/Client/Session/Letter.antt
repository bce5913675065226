-- ===== src/Client/Session/Letter.antt =====
-- What Send of client.go puts in its posts: the body, which it may seal and measures, and the headers.
use aamio_go.Prelude.{
  ℕ, ltb, Bool, true, false, List, [], ◌∷◌, ◌++◌, Option, none, some, Text, codes, length, is_empty,
  if◌then◌else◌, ◌≡◌, refl, subst, ◌≤◌, Bool-cases, inl, inr, arith,
}
use aamio_go.Errors.{Result, ok, err, ◌>>=◌, not_an_address, sealing_needs_keys, too_large}
use aamio_go.External.{External}
use aamio_go.Address.{is_w}
use aamio_go.Keys.{Keys, sign, seal, thread_signing_input}
use aamio_go.Client.Http.{aamio, Request}

abbrev pub max_body : ℕ
max_body = 65536

pub record SendOptions : Type 0 where
  pub unsigned : Bool
  pub seal_to : Text
  pub json : Bool

-- What a send is about: the address, the body with its type, and the keys when it is signed.
pub record Letter : Type 0 where
  pub w : Text
  pub body : Text
  pub content_type : Text
  pub signer : Option Keys

abbrev json_type : Text
json_type = codes "application/json"

abbrev as_json : Text → Result (Text × Text)
as_json sealed = ok (sealed, json_type)

abbrev pub signer_key : Option Keys → Text
signer_key none = []
signer_key (some k) = k.public

module _ (x : External) where
  -- The body and its type; the random bytes are for the nonce of the box.
  unfoldable pub sealed_body : Option Keys → Text → Text → SendOptions → Result (Text × Text)
  sealed_body keys random body opts =
      if is_empty opts.seal_to
      then ok (body, if opts.json then json_type else codes "text/plain; charset=utf-8")
      else elim keys [
        | none ↦ err sealing_needs_keys
        | some k ↦ do sealed ← seal x k opts.seal_to body random; as_json sealed
      ]

  abbrev within_limit : Option Keys → Text → SendOptions → Text × Text → Result Letter
  within_limit keys w opts (body, content_type) =
      if ltb max_body (length body)
      then err too_large
      else ok (record {
        w = w;
        body = body;
        content_type = content_type;
        signer = if opts.unsigned then none else keys;
      })

  unfoldable pub letter_of : Option Keys → Text → Text → Text → SendOptions → Result Letter
  unfolding sealed_body
  letter_of keys random w body opts =
      if is_w w
      then (do sealed ← sealed_body keys random body opts; within_limit keys w opts sealed)
      else err not_an_address

  abbrev signature_headers : Letter → Option Keys → List (Text × Text)
  signature_headers l none = []
  signature_headers l (some k) =
      (codes "X-Key", k.public) ∷ (codes "X-Sig", sign x k (thread_signing_input l.w l.body)) ∷ []

  abbrev work_header : Option Text → List (Text × Text)
  work_header none = []
  work_header (some work) = (codes "X-Work", work) ∷ []

  unfoldable pub post_request : Letter → Option Text → Request
  post_request l work = record {
    service = aamio;
    method = codes "POST";
    path = b'/' ∷ l.w;
    body = some l.body;
    headers =
        (codes "Content-Type", l.content_type) ∷ (signature_headers l l.signer ++ work_header work);
  }

  -- The body as it was given, or sealed with the client's keys.
  abbrev pub Content : Option Keys → Text → Text → SendOptions → Text → Bool → Type 0
  Content keys random body opts bytes true = bytes ≡ body
  Content keys random body opts bytes false =
      (k : Keys) × (keys ≡ some k) × (seal x k opts.seal_to body random ≡ ok bytes)

  abbrev pub Fits : Option Keys → Text → Text → Text → SendOptions → Letter → Type 0
  Fits keys random w body opts l =
      (is_w w ≡ true)
      × (l.w ≡ w)
      × (length l.body ≤ max_body)
      × Content keys random body opts l.body (is_empty opts.seal_to)
      × (l.signer ≡ (if opts.unsigned then none else keys))

  sealed_body-Content :
      (keys : Option Keys) (random body : Text) (opts : SendOptions) (bytes kind : Text) (b : Bool)
      → is_empty opts.seal_to ≡ b
      → sealed_body keys random body opts ≡ ok (bytes, kind)
      → Content keys random body opts bytes b
  unfolding sealed_body
  sealed_body-Content keys random body opts bytes kind true e h = ground arith
  sealed_body-Content none random body opts bytes kind false e h = absurd (ground arith)
  sealed_body-Content (some k) random body opts bytes kind false e h =
      (k, refl, sealed-ok (seal x k opts.seal_to body random) (ground arith))
    where
      sealed-ok : (r : Result Text) → (r >>= as_json) ≡ ok (bytes, kind) → r ≡ ok bytes
      sealed-ok (err e) h = absurd cc
      sealed-ok (ok b) h = cc

  within_limit-Fits :
      (keys : Option Keys) (random w body : Text) (opts : SendOptions)
      (sealed : Result (Text × Text)) (l : Letter)
      → is_w w ≡ true
      → sealed_body keys random body opts ≡ sealed
      → (sealed >>= λ b. within_limit keys w opts b) ≡ ok l
      → Fits keys random w body opts l
  within_limit-Fits keys random w body opts (err e) l good s h = absurd cc
  within_limit-Fits keys random w body opts (ok (bytes, kind)) l good s h =
      let bytes_are : bytes ≡ l.body = ground arith in
      (
        good,
        ground arith,
        ground arith,
        subst (λ b. Content keys random body opts b (is_empty opts.seal_to)) bytes_are
            (sealed_body-Content keys random body opts bytes kind (is_empty opts.seal_to) refl s),
        ground arith,
      )

  -- What Send posts goes to a write address as it was given, has at most 65536 bytes, which are
  -- the body or what Seal makes of it, and is signed by the client's keys unless the caller says
  -- otherwise.
  pub letter_of-Fits :
      (keys : Option Keys) (random w body : Text) (opts : SendOptions) (l : Letter)
      → letter_of keys random w body opts ≡ ok l
      → Fits keys random w body opts l
  unfolding letter_of
  letter_of-Fits keys random w body opts l h = elim (Bool-cases (is_w w)) [
    | inl e ↦
        within_limit-Fits keys random w body opts (sealed_body keys random body opts) l e refl
          (ground arith)
    | inr e ↦ absurd (ground arith)
  ]
