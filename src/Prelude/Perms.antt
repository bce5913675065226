-- ===== src/Prelude/Perms.antt =====
-- What a permutation of a list keeps: predicates of all elements and of all pairs, and the length.
use Prim.Native.Nat.{suc}
use mathlib.Core.Path.{◌≡◌, refl, ap, subst, ◌∙◌}
use mathlib.Core.List.{List, [], ◌∷◌, Permᴰ}
use aamio_go.Prelude.Lists.{All, length}

module _ {ℓ} {A : Type ℓ} where
  pub All-permutes {κ} : (P : A → Type κ) {xs ys : List A} → Permᴰ xs ys → All P xs → All P ys
  All-permutes P Permᴰ.nil h = h
  All-permutes P (Permᴰ.cons e p) (a, h) = (subst P e a, All-permutes P p h)
  All-permutes P (Permᴰ.swap e f) (a, (b, h)) = (subst P f b, (subst P e a, h))
  All-permutes P (Permᴰ.trans p q) h = All-permutes P q (All-permutes P p h)

  pub length-permutes : {xs ys : List A} → Permᴰ xs ys → length xs ≡ length ys
  length-permutes Permᴰ.nil = refl
  length-permutes (Permᴰ.cons e p) = ap suc (length-permutes p)
  length-permutes (Permᴰ.swap e f) = refl
  length-permutes (Permᴰ.trans p q) = length-permutes p ∙ length-permutes q

-- A relation between every element and every later one.
module _ {ℓ κ} {A : Type ℓ} (R : A → A → Type κ) where
  abbrev pub Pairs : List A → Type κ
  Pairs [] = Unit
  Pairs (x ∷ xs) = All (R x) xs × Pairs xs

  pub Pairs-permutes :
      {xs ys : List A} (turn : (x y : A) → R x y → R y x) → Permᴰ xs ys → Pairs xs → Pairs ys
  Pairs-permutes turn Permᴰ.nil h = h
  Pairs-permutes turn (Permᴰ.cons {b} {l₂} e p) (a, h) =
      (subst (λ x. All (R x) l₂) e (All-permutes _ p a), Pairs-permutes turn p h)
  Pairs-permutes turn (Permᴰ.swap {a} {b} {b'} {l} e f) ((n, ha), (hb, h)) =
      subst (λ x. Pairs (x ∷ b' ∷ l)) f
        (subst (λ y. Pairs (b ∷ y ∷ l)) e ((turn a b n, hb), (ha, h)))
  Pairs-permutes turn (Permᴰ.trans p q) h = Pairs-permutes turn q (Pairs-permutes turn p h)
