-- ===== src/Receipt/Tests.antt =====
-- The theorems of Receipt for an insertion sort, on a receipt of two messages.
use mathlib.Core.List.{Permᴰ}
use mathlib.Core.List.Permᴰ
use aamio_go.Prelude.{
  pos, ltb_ℤ, ◌≤ℤ◌, ◌<◌, true, List, [], ◌∷◌, none, some, codes, ◌≡◌, ◌↔◌, refl, inl, inr,
  All-weaken, All-permutes, ap, pos_part, Bool-cases, if◌then◌else◌, arith, length,
}
use aamio_go.Receipt.{ReceiptMessage, Receipt, verify_receipt, local_match}
use aamio_go.Receipt.Order.{Ordered, Distinct, Sorts}
use aamio_go.Receipt.Checks.{verify_receipt-permutes, local_match_iff, in_order}

insert : ReceiptMessage → List ReceiptMessage → List ReceiptMessage
insert m [] = m ∷ []
insert m (n ∷ ns) = let rest = insert m ns in if ltb_ℤ n.seq m.seq then n ∷ rest else m ∷ n ∷ ns

sort : List ReceiptMessage → List ReceiptMessage
sort [] = []
sort (m ∷ ms) = insert m (sort ms)

insert-permutes : (m : ReceiptMessage) (ns : List ReceiptMessage) → Permᴰ (m ∷ ns) (insert m ns)
unfolding insert
insert-permutes m [] = Permᴰ.refl (m ∷ [])
insert-permutes m (n ∷ ns) = elim (Bool-cases (ltb_ℤ n.seq m.seq)) [
  | inl e ↦ rw e (Permᴰ.trans (Permᴰ.swap refl refl) (Permᴰ.cons refl (insert-permutes m ns)))
  | inr e ↦ rw e (Permᴰ.refl (m ∷ n ∷ ns))
]

insert-Ordered :
    (m : ReceiptMessage) (ns : List ReceiptMessage) → Ordered ns → Ordered (insert m ns)
unfolding insert
insert-Ordered m [] h = (tt, tt)
insert-Ordered m (n ∷ ns) (a, h) = elim (Bool-cases (ltb_ℤ n.seq m.seq)) [
  | inl e ↦ rw e (
    All-permutes (λ k. n.seq ≤ℤ k.seq) (insert-permutes m ns) (ground arith, a),
    insert-Ordered m ns h,
  )
  | inr e ↦
      let le : m.seq ≤ℤ n.seq = ground arith in
      rw e ((le, All-weaken (λ k b. omega arith) ns a), (a, h))
]

sort-permutes : (ms : List ReceiptMessage) → Permᴰ ms (sort ms)
unfolding sort
sort-permutes [] = Permᴰ.nil
sort-permutes (m ∷ ms) =
    Permᴰ.trans (Permᴰ.cons refl (sort-permutes ms)) (insert-permutes m (sort ms))

sort-Ordered : (ms : List ReceiptMessage) → Ordered (sort ms)
unfolding sort
sort-Ordered [] = tt
sort-Ordered (m ∷ ms) = insert-Ordered m (sort ms) (sort-Ordered ms)

sorts : Sorts sort
sorts = record { permutes = sort-permutes; orders = sort-Ordered }

abbrev first : ReceiptMessage
first = record { seq = pos 1; at = pos 1789201272; sha256 = codes "ab"; from = none }

abbrev second : ReceiptMessage
second = record { seq = pos 2; at = pos 1789201273; sha256 = codes "cd"; from = some (codes "k") }

abbrev receipt : Receipt
receipt = record { messages = second ∷ first ∷ []; root = codes "00"; commitment = [] }

are-Distinct : Distinct receipt.messages
are-Distinct = ((λ e. absurd (omega (arith, ap pos_part e)), tt), (tt, tt))

verify_receipt-permutes_example :
    verify_receipt sort receipt (some (codes "ab" ∷ codes "cd" ∷ []))
    ≡ verify_receipt sort
        (record receipt { messages = first ∷ second ∷ [] })
        (some (codes "ab" ∷ codes "cd" ∷ []))
verify_receipt-permutes_example =
    verify_receipt-permutes sort sort receipt (first ∷ second ∷ [])
      (some (codes "ab" ∷ codes "cd" ∷ [])) sorts sorts are-Distinct (Permᴰ.swap refl refl)

local_match_iff_example :
    let hashes = codes "ab" ∷ codes "cd" ∷ [] in
    ((local_match sort receipt.messages (some hashes) ≡ some true)
      ↔ (hashes ≡ in_order sort sorts receipt.messages hashes))
    × ((local_match sort receipt.messages (some hashes) ≡ none) ↔ (length hashes < 2))
local_match_iff_example = local_match_iff sort sorts receipt.messages (codes "ab" ∷ codes "cd" ∷ [])
