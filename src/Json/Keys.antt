-- ===== src/Json/Keys.antt =====
-- The keys of a map, and sort.Strings on them (sortedKeys of gate.go): by bytes, ascending.
use aamio_go.Prelude.{
  Bool, true, false, ◌&&◌, ◌||◌, ◌≡◌, ◌↔◌, refl, List, [], ◌∷◌, Text, All, text_eq, ltb, ◌==◌,
  if◌then◌else◌, arith, contains, Option, none, some, ◌∙◌, Bool-cases, inl, inr,
}
use aamio_go.Json.{Fields, end, field, get}

unfoldable pub text_leb : Text → Text → Bool
text_leb [] t = true
text_leb (c ∷ s) [] = false
text_leb (c ∷ s) (d ∷ t) = ltb c d || (c == d && text_leb s t)

unfoldable pub insert : Text → List Text → List Text
insert k [] = k ∷ []
insert k (j ∷ ks) = if text_leb k j then k ∷ j ∷ ks else j ∷ insert k ks

unfoldable pub sort : List Text → List Text
unfolding insert
sort [] = []
sort (k ∷ ks) = insert k (sort ks)

unfoldable pub keys : Fields → List Text
keys end = []
keys (field k v m) = k ∷ keys m

unfoldable pub sorted_keys : Fields → List Text
unfolding sort keys
sorted_keys m = sort (keys m)

module _ {κ} (P : Text → Type κ) where
  All-insert : (k : Text) (ks : List Text) → All P (insert k ks) ↔ (P k × All P ks)
  unfolding insert
  All-insert k [] = (λ h. h, λ h. h)
  All-insert k (j ∷ ks) = elim (Bool-cases (text_leb k j)) [
    | inl e ↦ rw e ((λ h. h), (λ h. h))
    | inr e ↦
        let ih = All-insert k ks in
        rw e ((λ h. ((ih.0 h.1).0, (h.0, (ih.0 h.1).1))), (λ h. (h.1.0, ih.1 (h.0, h.1.1))))
  ]

  pub All-sort : (ks : List Text) → All P (sort ks) ↔ All P ks
  unfolding sort
  All-sort [] = (λ h. h, λ h. h)
  All-sort (k ∷ ks) =
      let ih = All-sort ks in
      let step = All-insert k (sort ks) in
      (λ h. ((step.0 h).0, ih.0 (step.0 h).1), λ h. step.1 (h.0, ih.1 h.1))

contains-insert :
    (c k : Text) (ks : List Text) → contains c (insert k ks) ≡ (text_eq c k || contains c ks)
unfolding insert
contains-insert c k [] = refl
contains-insert c k (j ∷ ks) = ground (arith, contains-insert c k ks)

pub contains-sort : (c : Text) (ks : List Text) → contains c (sort ks) ≡ contains c ks
unfolding sort
contains-sort c [] = refl
contains-sort c (k ∷ ks) = ground (arith, contains-insert c k (sort ks), contains-sort c ks)

abbrev pub is_some {ℓ} : {A : Type ℓ} → Option A → Bool
is_some none = false
is_some (some a) = true

contains-keys : (c : Text) (m : Fields) → contains c (keys m) ≡ is_some (get c m)
unfolding keys get
contains-keys c end = refl
contains-keys c (field k v m) = ground (arith, contains-keys c m)

pub contains-sorted_keys : (c : Text) (m : Fields) → contains c (sorted_keys m) ≡ is_some (get c m)
unfolding sorted_keys
contains-sorted_keys c m = contains-sort c (keys m) ∙ contains-keys c m
