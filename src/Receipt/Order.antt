-- ===== src/Receipt/Order.antt =====
-- What sort.Slice makes of the messages of a receipt: where no number stands twice, one order.
use mathlib.Core.List.{Permᴰ}
use mathlib.Core.List.Permᴰ
use aamio_go.Prelude.{
  ℤ, pos, negsuc, ◌≤ℤ◌, ◌<ℤ◌, List, [], ◌∷◌, ◌≡◌, ◌≢◌, ◌↔◌, ◌⊎◌, inl, inr, refl, sym, ap, subst,
  All, All-weaken, All-permutes, Pairs, Pairs-permutes, arith, ◌∙◌,
}
use aamio_go.Receipt.{ReceiptMessage}

abbrev pub Ordered : List ReceiptMessage → Type 0
Ordered = Pairs (λ m n. m.seq ≤ℤ n.seq)

abbrev pub Distinct : List ReceiptMessage → Type 0
Distinct = Pairs (λ m n. m.seq ≢ n.seq)

abbrev Strict : List ReceiptMessage → Type 0
Strict = Pairs (λ m n. m.seq <ℤ n.seq)

-- What sort.Slice documents: the same elements, in order. Which of equal ones is first is open.
pub record Sorts (sort : List ReceiptMessage → List ReceiptMessage) : Type 0 where
  pub permutes : (ms : List ReceiptMessage) → Permᴰ ms (sort ms)
  pub orders : (ms : List ReceiptMessage) → Ordered (sort ms)

lt_of_le_ne : (a b : ℤ) → a ≤ℤ b → a ≢ b → a <ℤ b
lt_of_le_ne (pos a) (pos b) h n = ground (arith, n)
lt_of_le_ne (pos a) (negsuc b) h n = omega arith
lt_of_le_ne (negsuc a) (pos b) h n = omega arith
lt_of_le_ne (negsuc a) (negsuc b) h n = ground (arith, n)

Distinct-permutes : {xs ys : List ReceiptMessage} → Permᴰ xs ys → Distinct xs → Distinct ys
Distinct-permutes p h = Pairs-permutes (λ m n. m.seq ≢ n.seq) (λ m n k e. k (sym e)) p h

All-below :
    (m : ReceiptMessage) (ms : List ReceiptMessage)
    → All (λ n. m.seq ≤ℤ n.seq) ms
    → All (λ n. m.seq ≢ n.seq) ms
    → All (λ n. m.seq <ℤ n.seq) ms
All-below m [] h k = tt
All-below m (n ∷ ms) (a, h) (b, k) = (lt_of_le_ne m.seq n.seq a b, All-below m ms h k)

Strict-of_Ordered : (ms : List ReceiptMessage) → Ordered ms → Distinct ms → Strict ms
Strict-of_Ordered [] h k = tt
Strict-of_Ordered (m ∷ ms) (a, h) (b, k) = (All-below m ms a b, Strict-of_Ordered ms h k)

-- The same elements, by every predicate that holds of all of them.
abbrev Same : List ReceiptMessage → List ReceiptMessage → Type 1
Same xs ys = (P : ReceiptMessage → Type 0) → All P xs ↔ All P ys

Same-permutes : {xs ys : List ReceiptMessage} → Permᴰ xs ys → Same xs ys
Same-permutes p P = (All-permutes P p, All-permutes P (Permᴰ.symm p))

All-self :
    (x : ReceiptMessage) (xs : List ReceiptMessage)
    → All (λ m. x.seq <ℤ m.seq) xs
    → All (λ m. (m ≡ x) ⊎ (x.seq <ℤ m.seq)) (x ∷ xs)
All-self x xs h = (inl refl, All-weaken (λ m a. inr a) xs h)

head-Same :
    (x y : ReceiptMessage) (xs ys : List ReceiptMessage)
    → Strict (x ∷ xs)
    → Strict (y ∷ ys)
    → Same (x ∷ xs) (y ∷ ys)
    → x ≡ y
head-Same x y xs ys (hx, _) (hy, _) same = elim ((same _).1 (All-self y ys hy)).0 [
  | inl e ↦ e
  | inr yx ↦ elim ((same _).0 (All-self x xs hx)).0 [
    | inl e ↦ sym e
    | inr xy ↦ absurd (omega arith)
  ]
]

All-but_head :
    (P : ReceiptMessage → Type 0) (x : ReceiptMessage) (ms : List ReceiptMessage)
    → All (λ m. x.seq <ℤ m.seq) ms
    → All (λ m. P m ⊎ (m ≡ x)) ms
    → All P ms
All-but_head P x [] h k = tt
All-but_head P x (m ∷ ms) (a, h) (inl b, k) = (b, All-but_head P x ms h k)
All-but_head P x (m ∷ ms) (a, h) (inr e, k) =
    absurd (omega (arith, subst (λ n. x.seq <ℤ n.seq) e a))

tail-Same :
    (x : ReceiptMessage) (xs ys : List ReceiptMessage)
    → Strict (x ∷ ys)
    → Same (x ∷ xs) (x ∷ ys)
    → (P : ReceiptMessage → Type 0) → All P xs
    → All P ys
tail-Same x xs ys (hy, _) same P h =
    let all : All (λ m. P m ⊎ (m ≡ x)) (x ∷ xs) = (inr refl, All-weaken (λ m a. inl a) xs h) in
    All-but_head P x ys hy ((same _).0 all).1

unique : (xs ys : List ReceiptMessage) → Strict xs → Strict ys → Same xs ys → xs ≡ ys
unique [] [] hx hy same = refl
unique [] (y ∷ ys) hx hy same = absurd ((same (λ m. ⊥)).0 tt).0
unique (x ∷ xs) [] hx hy same = absurd ((same (λ m. ⊥)).1 tt).0
unique (x ∷ xs) (y ∷ ys) hx hy same =
    let e = head-Same x y xs ys hx hy same in
    let hy' = subst (λ m. Strict (m ∷ ys)) (sym e) hy in
    let same' = subst (λ m. Same (x ∷ xs) (m ∷ ys)) (sym e) same in
    let tails = unique xs ys hx.1 hy.1 (λ P.
      (tail-Same x xs ys hy' same' P, tail-Same x ys xs hx (λ Q. ((same' Q).1, (same' Q).0)) P)) in
    ap (λ m. m ∷ xs) e ∙ ap (λ l. y ∷ l) tails

-- Whatever sorts they are, two sorts make the same list of messages with no number twice, from
-- whatever order they come in.
pub sorts_agree :
    (sort sort' : List ReceiptMessage → List ReceiptMessage) (xs ys : List ReceiptMessage)
    → Sorts sort
    → Sorts sort'
    → Distinct xs
    → Permᴰ xs ys
    → sort xs ≡ sort' ys
sorts_agree sort sort' xs ys s s' h p =
    let q = Permᴰ.trans p (s'.permutes ys) in
    unique (sort xs) (sort' ys)
      (Strict-of_Ordered (sort xs) (s.orders xs) (Distinct-permutes (s.permutes xs) h))
      (Strict-of_Ordered (sort' ys) (s'.orders ys) (Distinct-permutes q h))
      (Same-permutes (Permᴰ.trans (Permᴰ.symm (s.permutes xs)) q))
