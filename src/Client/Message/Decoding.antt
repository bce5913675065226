-- ===== src/Client/Message/Decoding.antt =====
-- What a decoded message says of its sender.
use aamio_go.Prelude.{
  ◌≡◌, ◌≢◌, ◌↔◌, ◌⊎◌, inl, inr, refl, true, not, ◌&&◌, [], Option, none, some, Text, codes, text_eq,
  is_empty, if◌then◌else◌, arith, Bool-cases, ◌∙◌, sym,
}
use aamio_go.Errors.{Error, Result, ok, err}
use aamio_go.Json.{Fields, bool, null, string, get, put, integer}
use aamio_go.Json.Laws.{get-put}
use aamio_go.External.{External}
use aamio_go.Keys.{Keys, open_sealed}
use aamio_go.Client.Message.{
  Message, Reason, bad_seq, bad_at, sealed, Checked, text_at, bool_at, check_message, opened_as,
  service_fields, decode_sealed, decode, failed, checked_fields, decode_checked, decode_at,
}
use aamio_go.Client.Message.Checks.{IsAuthentic, check_message_iff}

module _ (c : Checked) (raw : Fields) where
  -- The copy holds what was checked, in place of what the service said.
  pub get-checked :
      (k : Text)
      → get k (checked_fields c raw) ≡ (
          if not (is_empty c.digest) && text_eq k (codes "sha256")
          then some (string c.digest)
          else if not c.verified && text_eq k (codes "from")
          then some null
          else if text_eq k (codes "verified")
          then some (bool c.verified)
          else get k raw)
  unfolding checked_fields
  get-checked k =
      let verified = put (codes "verified") (bool c.verified) raw in
      let from = put (codes "from") null verified in
      ground (
        arith,
        get-put (codes "sha256") k (string c.digest) verified,
        get-put (codes "sha256") k (string c.digest) from,
        get-put (codes "from") k null verified,
        get-put (codes "verified") k (bool c.verified) raw,
      )

  verified-checked : bool_at (codes "verified") (checked_fields c raw) ≡ c.verified
  unfolding text_eq
  verified-checked = rw get-checked (ground arith)

  pub from-checked :
      text_at (codes "from") (checked_fields c raw)
      ≡ (if c.verified then text_at (codes "from") raw else [])
  unfolding text_eq
  from-checked = rw get-checked (ground arith)

  pub body-checked : get (codes "body") (checked_fields c raw) ≡ get (codes "body") raw
  unfolding text_eq
  body-checked = rw get-checked (ground arith)

Result-cases : {A : Type 0} (r : Result A) → ((a : A) × (r ≡ ok a)) ⊎ ((e : Error) × (r ≡ err e))
Result-cases (ok a) = inl (a, refl)
Result-cases (err e) = inr (e, refl)

module _ (x : External) (keys : Option Keys) where
  -- Opening changes none of the fields that say where a message is from.
  abbrev Keeps : Message → Message → Type 0
  Keeps m n =
      (n.seq ≡ m.seq)
      × (n.at ≡ m.at)
      × (n.from ≡ m.from)
      × (n.verified ≡ m.verified)
      × (n.body ≡ m.body)

  opened_as-Keeps : (m : Message) (r : Result Text) → Keeps m (opened_as x m r)
  opened_as-Keeps m (ok plain) = (refl, refl, refl, refl, refl)
  opened_as-Keeps m (err e) = (refl, refl, refl, refl, refl)

  decode_sealed-Keeps : (ks : Option Keys) (m : Message) → Keeps m (decode_sealed x ks m)
  unfolding decode_sealed
  decode_sealed-Keeps none m = (refl, refl, refl, refl, refl)
  decode_sealed-Keeps (some k) m = ground (arith, opened_as-Keeps m (open_sealed x k m.from m.body))

  decode-Keeps : (raw : Fields) → Keeps (service_fields raw) (decode x keys raw)
  unfolding decode
  decode-Keeps raw = ground (arith, decode_sealed-Keeps keys (service_fields raw))

  -- Only a message with a sender is opened.
  decode_sealed-from :
      (ks : Option Keys) (m : Message)
      → m.format ≢ sealed
      → (decode_sealed x ks m).format ≡ sealed
      → (k : Keys) × (ks ≡ some k)
        × (m.from ≢ [])
        × (open_sealed x k m.from m.body ≡ ok (decode_sealed x ks m).opened)
  unfolding decode_sealed
  decode_sealed-from none m n h = cc
  decode_sealed-from (some k) m n h =
      let result = open_sealed x k m.from m.body in
      elim (Result-cases result) [
        | inl (plain, e) ↦ (k, refl, ground (arith, e), ground (arith, e))
        | inr (er, e) ↦ absurd (ground (arith, e))
      ]

  checked-Keeps :
      (c : Checked) (raw : Fields)
      → let m = decode_checked x keys c raw in
        (m.verified ≡ c.verified)
        × (m.from ≡ (if c.verified then text_at (codes "from") raw else []))
        × (m.body ≡ text_at (codes "body") raw)
        × (m.unverified_because ≡ c.why_not)
  unfolding decode_checked service_fields
  checked-Keeps c raw =
      let (_, _, from, verified, body) = decode-Keeps (checked_fields c raw) in
      (verified ∙ verified-checked c raw, from ∙ from-checked c raw, body ∙ (rw body-checked), refl)

  decode-cases :
      (fields : Fields)
      → (decode x keys fields ≡ decode_sealed x keys (service_fields fields))
        ⊎ ((decode x keys fields).format ≢ sealed)
  unfolding decode
  decode-cases fields = elim (Bool-cases (service_fields fields).sealed) [
    | inl e ↦ inl (simp e)
    | inr e ↦ inr (simp e (unfold service_fields in λ h. cc))
  ]

  decode-opened :
      (fields : Fields)
      → (decode x keys fields).format ≡ sealed
      → let m = decode x keys fields in
        (k : Keys) × (keys ≡ some k)
        × (text_at (codes "from") fields ≢ [])
        × (open_sealed x k (text_at (codes "from") fields) (text_at (codes "body") fields)
            ≡ ok m.opened)
  unfolding service_fields
  decode-opened fields h = elim (decode-cases fields) [
    | inl e ↦ rw e (decode_sealed-from keys (service_fields fields) (λ p. cc) (rw e at h))
    | inr n ↦ absurd (n h)
  ]

  -- The result of a check carried to the decoded message.
  module _ (w : Text) (raw : Fields) where
    abbrev pub HasStamps : Type 0
    HasStamps =
        ((integer (get (codes "seq") raw)).1 ≡ true) × ((integer (get (codes "at") raw)).1 ≡ true)

    pub decode_at-cases :
        (HasStamps × (decode_at x keys w raw ≡ decode_checked x keys (check_message x w raw) raw))
        ⊎ (¬ HasStamps × ((r : Reason) × (decode_at x keys w raw ≡ failed raw r)))
    unfolding decode_at
    decode_at-cases = elim (Bool-cases (integer (get (codes "seq") raw)).1) [
      | inr e ↦ inr (λ h. cc, (bad_seq, rw e))
      | inl e ↦ elim (Bool-cases (integer (get (codes "at") raw)).1) [
        | inr f ↦ inr (λ h. cc, (bad_at, rw (e, f)))
        | inl f ↦ inl ((e, f), rw (e, f))
      ]
    ]

    -- A decoded message is verified exactly when its sequence number and time are integers and it
    -- is authentic at the address being read, whatever the service said. Its sender is the key that
    -- was checked, and no sender when it is not verified; its body is the one that was hashed.
    pub decode_at-verified :
        let m = decode_at x keys w raw in
        ((m.verified ≡ true) ↔ (HasStamps × IsAuthentic x w raw))
        × (m.from ≡ (if m.verified then text_at (codes "from") raw else []))
        × (m.body ≡ text_at (codes "body") raw)
    decode_at-verified = elim decode_at-cases [
      | inl (stamps, e) ↦
          let (v, f, b, _) = checked-Keeps (check_message x w raw) raw in
          rw e (
            (
              λ h. (stamps, (check_message_iff x w raw).0 (sym v ∙ h)),
              λ h. v ∙ (check_message_iff x w raw).1 h.1,
            ),
            rw v f,
            b,
          )
      | inr (n, (r, e)) ↦ rw e (unfold failed in ((λ h. cc, λ h. absurd (n h.0)), refl, refl))
    ]

    opened_checked :
        let c = check_message x w raw in
        let m = decode x keys (checked_fields c raw) in
        m.format ≡ sealed
        → IsAuthentic x w raw
          × ((k : Keys) × (keys ≡ some k)
              × (open_sealed x k (text_at (codes "from") raw) m.body ≡ ok m.opened))
    unfolding service_fields
    opened_checked h =
        let c = check_message x w raw in
        let (k, own, sender, opens) = decode-opened (checked_fields c raw) h in
        let (_, _, _, _, same) = decode-Keeps (checked_fields c raw) in
        let verified : c.verified ≡ true = ground (arith, from-checked c raw) in
        let key : text_at (codes "from") (checked_fields c raw) ≡ text_at (codes "from") raw =
          from-checked c raw ∙ rw verified in
        let body : (decode x keys (checked_fields c raw)).body
            ≡ text_at (codes "body") (checked_fields c raw) =
          same in
        ((check_message_iff x w raw).0 verified, (k, own, rw (← key, body) opens))

    -- A sealed body is opened only for a message that is authentic at the address being read, with
    -- the client's keys and against the key that signed it; what is handed over is what the
    -- envelope opened to.
    pub decode_at-opened :
        let m = decode_at x keys w raw in
        m.format ≡ sealed
        → IsAuthentic x w raw
          × ((k : Keys) × (keys ≡ some k)
              × (open_sealed x k (text_at (codes "from") raw) m.body ≡ ok m.opened))
    unfolding decode_checked
    decode_at-opened = elim decode_at-cases [
      | inl (stamps, e) ↦ rw e opened_checked
      | inr (n, (r, e)) ↦ rw e (unfold failed in λ h. cc)
    ]
