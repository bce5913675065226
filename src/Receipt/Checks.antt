-- ===== src/Receipt/Checks.antt =====
-- What the answers of VerifyReceipt of receipt.go mean.
use mathlib.Core.List.{Permᴰ}
use aamio_go.Prelude.{
  length-permutes, ◌<◌, true, List, [], ◌∷◌, Option, none, some, Text, map, ap, text_eq_iff, ◌≡◌,
  ◌↔◌, length, arith, refl, length-map, sym, ◌∙◌,
}
use aamio_go.Receipt.{ReceiptMessage, Receipt, root_of, hashes_agree, local_match, verify_receipt}
use aamio_go.Receipt.Order.{Distinct, Sorts, sorts_agree}

root_of-permutes :
    (sort sort' : List ReceiptMessage → List ReceiptMessage) (xs ys : List ReceiptMessage)
    → Sorts sort
    → Sorts sort'
    → Distinct xs
    → Permᴰ xs ys
    → root_of sort xs ≡ root_of sort' ys
unfolding root_of
root_of-permutes sort sort' xs ys s s' h p =
    ap (root_of (λ ms. ms)) (sorts_agree sort sort' xs ys s s' h p)

local_match-permutes :
    (sort sort' : List ReceiptMessage → List ReceiptMessage) (xs ys : List ReceiptMessage)
    (hashes : Option (List Text))
    → Sorts sort
    → Sorts sort'
    → Distinct xs
    → Permᴰ xs ys
    → local_match sort xs hashes ≡ local_match sort' ys hashes
unfolding local_match
local_match-permutes sort sort' xs ys none s s' h p = refl
local_match-permutes sort sort' xs ys (some hashes) s s' h p =
    rw (sorts_agree sort sort' xs ys s s' h p, length-permutes p) refl

hashes_agree_iff :
    (hashes : List Text) (ms : List ReceiptMessage)
    → length ms ≡ length hashes
    → (hashes_agree hashes ms ≡ true) ↔ (hashes ≡ map (λ m. m.sha256) ms)
unfolding hashes_agree
hashes_agree_iff [] [] h = (λ _. refl, λ _. refl)
hashes_agree_iff [] (m ∷ ms) h = absurd (omega arith)
hashes_agree_iff (k ∷ hashes) [] h = absurd (omega arith)
hashes_agree_iff (k ∷ hashes) (m ∷ ms) h =
    let ih = hashes_agree_iff hashes ms (omega arith) in ground (arith, ih, text_eq_iff k m.sha256)

module _ (sort : List ReceiptMessage → List ReceiptMessage) (s : Sorts sort)
    (ms : List ReceiptMessage) (hashes : List Text) where
  abbrev pub in_order : List Text
  in_order = map (λ m. m.sha256) (sort ms)

  -- Hashes that this process saw match a receipt exactly when they are those of its messages, in
  -- the order of their numbers. VerifyReceipt leaves the match open exactly for a receipt with more
  -- messages than there are hashes, so that one with fewer does not match.
  pub local_match_iff :
      ((local_match sort ms (some hashes) ≡ some true) ↔ (hashes ≡ in_order))
      × ((local_match sort ms (some hashes) ≡ none) ↔ (length hashes < length ms))
  unfolding local_match
  local_match_iff =
      let same : length ms ≡ length (sort ms) = length-permutes (s.permutes ms) in
      let len : hashes ≡ in_order → length hashes ≡ length ms =
        λ e. ap length e ∙ length-map (λ m. m.sha256) (sort ms) ∙ sym same in
      let agree : length ms ≡ length hashes
          → (hashes_agree hashes (sort ms) ≡ true) ↔ (hashes ≡ in_order) =
        λ e. hashes_agree_iff hashes (sort ms) (sym same ∙ e) in
      (
        (λ h. ground (arith, agree), λ h. ground (arith, agree, len)),
        (λ h. ground arith, λ h. ground arith),
      )

-- What VerifyReceipt says of a receipt whose messages have no sequence number twice does not depend
-- on the order in which they stand, nor on which of the sorts is used.
pub verify_receipt-permutes :
    (sort sort' : List ReceiptMessage → List ReceiptMessage) (r : Receipt)
    (ys : List ReceiptMessage) (hashes : Option (List Text))
    → Sorts sort
    → Sorts sort'
    → Distinct r.messages
    → Permᴰ r.messages ys
    → verify_receipt sort r hashes ≡ verify_receipt sort' (record r { messages = ys }) hashes
unfolding verify_receipt
verify_receipt-permutes sort sort' r ys hashes s s' h p =
    rw
      (
        root_of-permutes sort sort' r.messages ys s s' h p,
        local_match-permutes sort sort' r.messages ys hashes s s' h p,
      )
      refl
