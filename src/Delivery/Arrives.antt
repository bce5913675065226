-- ===== src/Delivery/Arrives.antt =====
-- What one client sends, another that trusts its key is handed.
use aamio_go.Prelude.{
  ℤ, ◌≡◌, ◌∙◌, refl, sym, ap, subst, true, false, List, [], ◌∷◌, Option, some, Text, codes,
  is_empty, length, IsBytes,
}
use aamio_go.Errors.{ok}
use aamio_go.External.{External, SignsWell}
use aamio_go.Json.{Fields}
use aamio_go.Keys.{Keys, from_seed, seal, envelope_to}
use aamio_go.Codec.{is_key, b64url}
use aamio_go.Keys.Signing.{from_seed-fields, b64url-is_key}
use aamio_go.Keys.Sealing.{SealsWell, envelope_to-seal}
use aamio_go.Client.Http.{Answer}
use aamio_go.Client.Allow.{normalize_allow}
use aamio_go.Client.Message.{Message, sealed, bool_at, decode_at}
use aamio_go.Client.Message.Decoding.{decode_at-verified}
use aamio_go.Client.Read.{Thread, read_thread}
use aamio_go.Client.Session.Letter.{
  SendOptions, Letter, letter_of, post_request, Content, Fits, letter_of-Fits,
}
use aamio_go.Delivery.{Returns, Answers, In}
use aamio_go.Delivery.Signed.{post-IsAuthentic, post-from, post-body}
use aamio_go.Delivery.Sealed.{decode_at-opens}
use aamio_go.Delivery.HandedOver.{LetsIn, In-read_thread}

-- A message handed over as verified, with its sender.
abbrev pub HandedOver : List Message → Text → Message → Type 0
HandedOver handed key m = In m handed × (m.verified ≡ true) × (m.from ≡ key)

module _ (x : External) (seed : Text) (k : Keys) (signs : SignsWell x)
    (made : from_seed x seed ≡ ok k) (reader : Option Keys) (random w body : Text)
    (opts : SendOptions) (l : Letter) (wrote : letter_of x (some k) random w body opts ≡ ok l)
    (signing : opts.unsigned ≡ false) (work : Option Text) (raw : Fields)
    (returned : Returns (post_request x l work) raw) where
  fits : Fits x (some k) random w body opts l
  fits = letter_of-Fits x (some k) random w body opts l wrote

  signer : l.signer ≡ some k
  signer = let (_, _, _, _, s) = fits in s ∙ rw signing

  to_w : l.w ≡ w
  to_w = let (_, e, _, _, _) = fits in e

  -- Whoever reads the post at its address finds it verified, of its sender, and with its bytes.
  received :
      let m = decode_at x reader w raw in
      (m.verified ≡ true) × (m.from ≡ k.public) × (m.body ≡ l.body)
  received =
      let authentic = post-IsAuthentic x l k signer work signs seed made raw returned in
      let (v, f, b) = decode_at-verified x reader w raw in
      let verified = v.1 ((returned.numbered, returned.dated), rw (← to_w) authentic) in
      (
        verified,
        f ∙ (rw verified (post-from x l k signer work signs seed made raw returned)),
        b ∙ post-body x l k signer work signs seed made raw returned,
      )

  module _ (t : Thread) (at_w : t.w ≡ w) (after : ℤ) (a : Answer) (answered : Answers a raw)
      (trusted : LetsIn (normalize_allow t.allow) k.public) where
    handed : HandedOver (read_thread x reader t after a).0 k.public (decode_at x reader t.w raw)
    handed =
        let (v, f, _) = received in
        let verified : (decode_at x reader t.w raw).verified ≡ true = rw at_w v in
        let from : (decode_at x reader t.w raw).from ≡ k.public = rw at_w f in
        (
          In-read_thread x reader t after a raw answered verified
              (subst (LetsIn (normalize_allow t.allow)) (sym from) trusted),
          verified,
          from,
        )

    -- A letter that Send posts signed and not sealed, returned by a service that keeps to its
    -- protocol, is handed over by a read of a thread at its address that lets the sender in:
    -- verified, with the sender's key, and with the body that was sent.
    pub signed_letter-HandedOver :
        opts.seal_to ≡ []
        → (m : Message) × HandedOver (read_thread x reader t after a).0 k.public m × (m.body ≡ body)
    signed_letter-HandedOver plain =
        let (_, _, _, content, _) = fits in
        let (_, _, b) = received in
        let same : l.body ≡ body =
          subst (Content x (some k) random body opts l.body) (ap is_empty plain) content in
        (decode_at x reader t.w raw, handed, rw at_w (b ∙ same))

is_empty_of_is_key : (key : Text) → is_key key ≡ true → is_empty key ≡ false
unfolding is_key
is_empty_of_is_key [] h = cc
is_empty_of_is_key (c ∷ s) h = refl

is_empty-public :
    (x : External) (seed : Text) (k : Keys)
    → SignsWell x
    → from_seed x seed ≡ ok k
    → is_empty k.public ≡ false
is_empty-public x seed k signs made =
    let (n, _, public, _, _) = from_seed-fields x seed k made in
    let key =
      b64url-is_key (x.public_of seed) (signs.length-public seed n) (signs.public-IsBytes seed n) in
    ap is_empty public ∙ is_empty_of_is_key (b64url (x.public_of seed)) key

seal-Content :
    (x : External) (k p : Keys) (random body : Text) (opts : SendOptions) (bytes : Text)
    → opts.seal_to ≡ p.public
    → is_empty p.public ≡ false
    → Content x (some k) random body opts bytes (is_empty opts.seal_to)
    → seal x k p.public body random ≡ ok bytes
seal-Content x k p random body opts bytes recipient some_key content =
    let (k', same, made) =
      subst (Content x (some k) random body opts bytes) (ap is_empty recipient ∙ some_key)
        content in
    let key : k' ≡ k = cc in rw (← recipient, ← key) made

-- A letter that Send posts signed and sealed to a reader, returned and called sealed by a service
-- that keeps to its protocol, is handed over by that reader's read of a thread at its address that
-- lets the sender in: verified, with the sender's key, opened to the body that was sent and with the
-- map that it decodes to, if any, for ed25519, JSON and the box as documented.
pub sealed_letter-HandedOver :
    (x : External) (seed seed' : Text) (k p : Keys)
    → SignsWell x
    → SealsWell x
    → from_seed x seed ≡ ok k
    → from_seed x seed' ≡ ok p
    → (random w body : Text) (opts : SendOptions) (l : Letter)
    → letter_of x (some k) random w body opts ≡ ok l
    → opts.unsigned ≡ false
    → opts.seal_to ≡ p.public
    → IsBytes body
    → IsBytes random
    → length random ≡ 24
    → (work : Option Text) (raw : Fields) → Returns (post_request x l work) raw
    → bool_at (codes "sealed") raw ≡ true
    → (t : Thread) → t.w ≡ w
    → (after : ℤ) (a : Answer) → Answers a raw
    → LetsIn (normalize_allow t.allow) k.public
    → (m : Message) × HandedOver (read_thread x (some p) t after a).0 k.public m
      × (m.format ≡ sealed)
      × (m.opened ≡ body)
      × (m.json ≡ x.decode_object body)
sealed_letter-HandedOver x seed seed' k p signs seals made made' random w body opts l wrote signing
      recipient hb hr n work raw returned flag t at_w after a answered trusted =
    let fit =
      fits x seed k signs made (some p) random w body opts l wrote signing work raw returned in
    let (_, to_w, _, content, _) = fit in
    let sign =
      signer x seed k signs made (some p) random w body opts l wrote signing work raw returned in
    let authentic = post-IsAuthentic x l k sign work signs seed made raw returned in
    let sealing : seal x k p.public body random ≡ ok l.body =
      seal-Content x k p random body opts l.body recipient (is_empty-public x seed' p signs made')
        content in
    let (to, opens) =
      envelope_to-seal x seed seed' body random k p l.body signs seals made made' n hb hr sealing in
    let body_is = post-body x l k sign work signs seed made raw returned in
    let from_is = post-from x l k sign work signs seed made raw returned in
    let (format, opened, read) =
      decode_at-opens x p t.w raw body (returned.numbered, returned.dated)
        (rw at_w (rw (← to_w) authentic)) flag (ap (envelope_to x) body_is ∙ to)
        (rw (from_is, body_is) opens) in
    (
      decode_at x (some p) t.w raw,
      handed x seed k signs made (some p) random w body opts l wrote signing work raw returned t
          at_w after a answered trusted,
      format,
      opened,
      read,
    )
