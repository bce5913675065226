-- ===== src/Receipt.antt =====
-- receipt.go: the root over the lines of a receipt, and what a client can say about a receipt.
pub mod Order
pub mod Checks
mod Tests
use aamio_go.Prelude.{
  ℕ, suc, ℤ, pos, negsuc, ltb, Bool, true, false, ◌&&◌, List, [], ◌∷◌, ◌++◌, Option, none, some,
  Text, codes, text_eq, itoa_ℤ, is_empty, length, ◌==◌, if◌then◌else◌,
}
use aamio_go.Codec.{sha256_hex}

pub record ReceiptMessage : Type 0 where
  pub seq : ℤ
  pub at : ℤ
  pub sha256 : Text
  pub from : Option Text

-- The fields of Receipt that VerifyReceipt reads.
pub record Receipt : Type 0 where
  pub messages : List ReceiptMessage
  pub root : Text
  pub commitment : Text

pub record Check : Type 0 where
  pub root_adds_up : Bool
  pub commitment_matches : Bool
  pub local_hashes_match : Option Bool

unfoldable pub from_or_dash : Option Text → Text
from_or_dash none = codes "-"
from_or_dash (some from) = if is_empty from then codes "-" else from

unfoldable pub line : ReceiptMessage → Text
unfolding itoa_ℤ from_or_dash
line m =
    itoa_ℤ m.seq
    ++ b'\t' ∷ (itoa_ℤ m.at ++ b'\t' ∷ (m.sha256 ++ b'\t' ∷ (from_or_dash m.from ++ b'\n' ∷ [])))

unfoldable pub lines : List ReceiptMessage → Text
unfolding line
lines [] = []
lines (m ∷ ms) = line m ++ lines ms

-- The loop that compares the local hashes with those of the sorted messages, of which it has as
-- many.
unfoldable pub hashes_agree : List Text → List ReceiptMessage → Bool
hashes_agree (hash ∷ hashes) (m ∷ ms) = text_eq hash m.sha256 && hashes_agree hashes ms
hashes_agree _ _ = true

-- sort.Slice by seq
module _ (sort : List ReceiptMessage → List ReceiptMessage) where
  unfoldable pub root_of : List ReceiptMessage → Text
  unfolding lines
  root_of messages = sha256_hex (lines (sort messages))

  -- localHashes; none is nil.
  unfoldable pub local_match : List ReceiptMessage → Option (List Text) → Option Bool
  unfolding hashes_agree
  local_match messages none = none
  local_match messages (some hashes) =
      if ltb (length messages) (length hashes)
      then some false
      else if length messages == length hashes
      then some (hashes_agree hashes (sort messages))
      else none

  unfoldable pub verify_receipt : Receipt → Option (List Text) → Check
  unfolding root_of local_match
  verify_receipt r hashes = record {
    root_adds_up = text_eq (root_of r.messages) r.root;
    commitment_matches = text_eq r.commitment (codes "sha256:" ++ r.root);
    local_hashes_match = local_match r.messages hashes;
  }
