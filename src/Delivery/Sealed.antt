-- ===== src/Delivery/Sealed.antt =====
-- A sealed body opens for whom it was sealed to.
use aamio_go.Prelude.{
  ◌≡◌, ◌≢◌, inl, inr, ◌∙◌, refl, ap, true, false, [], ◌∷◌, some, Text, codes, text_eq, text_eq_refl,
  is_empty, arith,
}
use aamio_go.Errors.{ok}
use aamio_go.External.{External}
use aamio_go.Json.{Fields, as_string, string_or_empty}
use aamio_go.Keys.{Keys, envelope_to, open_sealed}
use aamio_go.Client.Message.{
  Message, sealed, Checked, text_at, bool_at, check_message, service_fields, decode_sealed, decode,
  checked_fields, decode_checked, decode_at,
}
use aamio_go.Client.Message.Checks.{IsAuthentic, check_message_iff}
use aamio_go.Client.Message.Decoding.{
  HasStamps, decode_at-cases, get-checked, from-checked, body-checked,
}

is_empty_of_ne : (s : Text) → s ≢ [] → is_empty s ≡ false
is_empty_of_ne [] n = absurd (n refl)
is_empty_of_ne (c ∷ s) n = refl

module _ (x : External) (m : Keys) where
  decode_sealed-opens :
      (msg : Message) (plain : Text)
      → envelope_to x msg.body ≡ m.hash_prefix
      → is_empty msg.from ≡ false
      → open_sealed x m msg.from msg.body ≡ ok plain
      → (decode_sealed x (some m) msg).format ≡ sealed
        × (decode_sealed x (some m) msg).opened ≡ plain
        × (decode_sealed x (some m) msg).json ≡ x.decode_object plain
  unfolding decode_sealed
  decode_sealed-opens msg plain h n o = ground (arith, text_eq_refl m.hash_prefix)

  sealed_lem : (fields : Fields) → (service_fields fields).sealed ≡ bool_at (codes "sealed") fields
  unfolding service_fields
  sealed_lem fields = refl

  decode-sealed :
      (fields : Fields)
      → bool_at (codes "sealed") fields ≡ true
      → decode x (some m) fields ≡ decode_sealed x (some m) (service_fields fields)
  unfolding decode
  decode-sealed fields h =
      let flag : (service_fields fields).sealed ≡ true = sealed_lem fields ∙ h in simp flag

  module _ (w : Text) (raw : Fields) where
    sealed-checked :
        (c : Checked)
        → bool_at (codes "sealed") (checked_fields c raw) ≡ bool_at (codes "sealed") raw
    unfolding text_eq
    sealed-checked c = rw (get-checked c raw (codes "sealed")) (ground arith)

    -- A message that is authentic here and that the service calls sealed opens, where its envelope
    -- names these keys and opens with them and its sender's.
    pub decode_at-opens :
        (plain : Text)
        → HasStamps x (some m) w raw
        → IsAuthentic x w raw
        → bool_at (codes "sealed") raw ≡ true
        → envelope_to x (text_at (codes "body") raw) ≡ m.hash_prefix
        → open_sealed x m (text_at (codes "from") raw) (text_at (codes "body") raw) ≡ ok plain
        → ((decode_at x (some m) w raw).format ≡ sealed)
          × ((decode_at x (some m) w raw).opened ≡ plain)
          × ((decode_at x (some m) w raw).json ≡ x.decode_object plain)
    unfolding decode_checked service_fields
    decode_at-opens plain stamps authentic is_sealed to opens =
        let c = check_message x w raw in
        let fields = checked_fields c raw in
        let verified : c.verified ≡ true = (check_message_iff x w raw).1 authentic in
        let from : text_at (codes "from") fields ≡ text_at (codes "from") raw =
          from-checked c raw ∙ rw verified in
        let body : text_at (codes "body") fields ≡ text_at (codes "body") raw =
          ap (λ o. string_or_empty (as_string o)) (body-checked c raw) in
        let flag : bool_at (codes "sealed") fields ≡ true = sealed-checked c ∙ is_sealed in
        let named : is_empty (text_at (codes "from") fields) ≡ false =
          ap is_empty from ∙ is_empty_of_ne (text_at (codes "from") raw) authentic.named in
        elim (decode_at-cases x (some m) w raw) [
          | inl (_, e) ↦
              rw (e, decode-sealed fields flag)
                (decode_sealed-opens (service_fields fields) plain (ap (envelope_to x) body ∙ to)
                  named (rw (from, body) opens))
          | inr (n, _) ↦ absurd (n stamps)
        ]
