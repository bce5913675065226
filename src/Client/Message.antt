-- ===== src/Client/Message.antt =====
-- CheckMessage, DecodeAt and Decode of client.go: what a reader makes of one message as the service
-- returned it. A panic in the check, which DecodeAt recovers from, has no counterpart here.
pub mod Checks
pub mod Decoding
pub mod Tests
use aamio_go.Prelude.{
  ℤ, pos, Bool, true, false, ◌&&◌, ◌||◌, not, [], ◌∷◌, Option, none, some, Text, codes, text_eq,
  is_empty, if◌then◌else◌,
}
use aamio_go.Errors.{Error, Result, ok, err}
use aamio_go.Json.{
  Json, Fields, null, bool, string, get, put, as_string, as_bool, string_or_empty, bool_or_false,
  integer,
}
use aamio_go.Codec.{sha256_hex}
use aamio_go.External.{External}
use aamio_go.Keys.{Keys, verify, thread_signing_input, envelope_to, open_sealed}

-- The sentences of whyNot and of the failed decodings; the empty sentence is no reason.
pub data Reason : Type 0 where
  no_body wrong_hash nothing_to_check bad_seq bad_at : Reason
  bad_signature : Bool → Reason

pub data Failure : Type 0 where
  unchecked : Reason → Failure
  for_another : Text → Text → Failure
  not_opened : Error → Failure

pub data Format : Type 0 where
  text sealed unreadable sealed_to_someone_else sealed_unchecked : Format

pub record Message : Type 0 where
  pub seq : ℤ
  pub at : ℤ
  pub from : Text
  pub verified : Bool
  pub sealed : Bool
  pub body : Text
  pub opened : Text
  pub format : Format
  pub failure : Option Failure
  pub json : Option Fields
  pub unverified_because : Option Reason

-- The three results of CheckMessage.
pub record Checked : Type 0 where
  pub verified : Bool
  pub why_not : Option Reason
  pub digest : Text

abbrev pub text_at : Text → Fields → Text
text_at k raw = string_or_empty (as_string (get k raw))

abbrev pub bool_at : Text → Fields → Bool
bool_at k raw = bool_or_false (as_bool (get k raw))

unfoldable pub failed : Fields → Reason → Message
failed raw reason = record {
  seq = (integer (get (codes "seq") raw)).0;
  at = (integer (get (codes "at") raw)).0;
  from = [];
  verified = false;
  sealed = false;
  body = text_at (codes "body") raw;
  opened = [];
  format = unreadable;
  failure = some (unchecked reason);
  json = none;
  unverified_because = some reason;
}

-- The copy of the fields that Decode is given.
unfoldable pub checked_fields : Checked → Fields → Fields
checked_fields c raw =
    let verified = put (codes "verified") (bool c.verified) raw in
    let from = if c.verified then verified else put (codes "from") null verified in
    if is_empty c.digest then from else put (codes "sha256") (string c.digest) from

-- The fields as the service gave them.
unfoldable pub service_fields : Fields → Message
service_fields raw = record {
  seq = (integer (get (codes "seq") raw)).0;
  at = (integer (get (codes "at") raw)).0;
  from = text_at (codes "from") raw;
  verified = bool_at (codes "verified") raw;
  sealed = bool_at (codes "sealed") raw;
  body = text_at (codes "body") raw;
  opened = [];
  format = text;
  failure = none;
  json = none;
  unverified_because = none;
}

module _ (x : External) where
  unfoldable pub check_signature : Text → Text → Text → Text → Bool → Text → Checked
  check_signature w body from signature claimed digest =
      if is_empty from || is_empty signature
      then record {
        verified = false;
        why_not = if claimed then some nothing_to_check else none;
        digest = digest;
      }
      else if verify x from signature (thread_signing_input w body)
      then record { verified = true; why_not = none; digest = digest }
      else record { verified = false; why_not = some (bad_signature claimed); digest = digest }

  unfoldable pub check_body : Text → Fields → Option Text → Checked
  check_body w raw none = record { verified = false; why_not = some no_body; digest = [] }
  check_body w raw (some body) =
      let digest = sha256_hex body in
      if text_eq (text_at (codes "sha256") raw) digest
      then check_signature w body (text_at (codes "from") raw) (text_at (codes "sig") raw)
          (bool_at (codes "verified") raw) digest
      else record { verified = false; why_not = some wrong_hash; digest = digest }

  unfoldable pub check_message : Text → Fields → Checked
  unfolding check_body
  check_message w raw = check_body w raw (as_string (get (codes "body") raw))

  -- The text of the body as JSON, when it is an object.
  abbrev pub with_json : Message → Text → Message
  with_json m plain = record m { json = x.decode_object plain }

  abbrev pub opened_as : Message → Result Text → Message
  opened_as m (ok plain) = with_json (record m { format = sealed; opened = plain }) plain
  opened_as m (err e) = record m { format = unreadable; failure = some (not_opened e) }

  -- A sealed body, by whom the envelope names, our prefix and our keys.
  unfoldable pub decode_sealed : Option Keys → Message → Message
  decode_sealed none m = record m { format = sealed_unchecked }
  decode_sealed (some k) m =
      let to = envelope_to x m.body in
      if not (is_empty to) && not (is_empty k.hash_prefix) && not (text_eq to k.hash_prefix)
      then record m {
        format = sealed_to_someone_else;
        failure = some (for_another to k.hash_prefix);
      }
      else if is_empty m.from
      then record m { format = sealed_unchecked }
      else opened_as m (open_sealed x k m.from m.body)

  unfoldable pub decode : Option Keys → Fields → Message
  decode keys raw =
      let m = service_fields raw in if m.sealed then decode_sealed keys m else with_json m m.body

  unfoldable pub decode_checked : Option Keys → Checked → Fields → Message
  decode_checked keys c raw = record (decode keys (checked_fields c raw)) {
    unverified_because = c.why_not;
  }

  unfoldable pub decode_at : Option Keys → Text → Fields → Message
  decode_at keys w raw =
      if not (integer (get (codes "seq") raw)).1
      then failed raw bad_seq
      else if not (integer (get (codes "at") raw)).1
      then failed raw bad_at
      else decode_checked keys (check_message w raw) raw
