-- ===== src/Gate/Canonical/Order.antt =====
-- The order in which a map's fields come up, in which Go promises nothing, leaves no trace in the
-- canonical text.
use aamio_go.Prelude.{
  ◌≡◌, ◌≢◌, refl, sym, ap, subst, ◌∙◌, Bool, true, false, List, [], ◌∷◌, Text, codes, text_eq,
  text_eq_iff, if◌then◌else◌, arith, ◌&&◌, ◌||◌,
}
use aamio_go.Json.{Json, Items, Fields, object, array, nil, cons, end, field}
use aamio_go.Json.Keys.{text_leb, insert, sort, keys, sorted_keys}
use aamio_go.Codec.{sha256_hex}
use aamio_go.External.{External}
use aamio_go.Gate.Canonical.{canonical, pruned, is_empty_object, is_empty_bucket, gate_hash}
use aamio_go.Gate.Canonical.Normal.{
  normal, normal_items, normal_values, value_at, pick, canonical_encode-print, print,
}

-- The same value with the fields of its objects, at any depth, in another order.
mutual
  pub data Reordered : Json → Json → Type 0 where
    same : {v : Json} → Reordered v v
    inside : {m n : Fields} → FieldsReordered m n → Reordered (object m) (object n)
    items : {l k : Items} → ItemsReordered l k → Reordered (array l) (array k)

  pub data ItemsReordered : Items → Items → Type 0 where
    none_left : ItemsReordered nil nil
    item :
        {v w : Json} {l k : Items}
        → Reordered v w
        → ItemsReordered l k
        → ItemsReordered (cons v l) (cons w k)

  pub data FieldsReordered : Fields → Fields → Type 0 where
    no_more : FieldsReordered end end
    keep :
        {k : Text} {v w : Json} {m n : Fields}
        → Reordered v w
        → FieldsReordered m n
        → FieldsReordered (field k v m) (field k w n)
    exchange :
        {k j : Text} {v w : Json} {m : Fields}
        → k ≢ j
        → FieldsReordered (field k v (field j w m)) (field j w (field k v m))
    after : {m n o : Fields} → FieldsReordered m n → FieldsReordered n o → FieldsReordered m o

text_leb_total : (s t : Text) → text_leb s t ≡ false → text_leb t s ≡ true
unfolding text_leb
text_leb_total [] t h = ground arith
text_leb_total (c ∷ s) [] h = refl
text_leb_total (c ∷ s) (d ∷ t) h = ground (arith, text_leb_total s t)

text_leb_antisymm : (s t : Text) → text_leb s t ≡ true → text_leb t s ≡ true → s ≡ t
unfolding text_leb
text_leb_antisymm [] [] h k = refl
text_leb_antisymm [] (d ∷ t) h k = ground arith
text_leb_antisymm (c ∷ s) [] h k = ground arith
text_leb_antisymm (c ∷ s) (d ∷ t) h k = ground (arith, text_leb_antisymm s t)

text_leb_trans : (s t u : Text) → text_leb s t ≡ true → text_leb t u ≡ true → text_leb s u ≡ true
unfolding text_leb
text_leb_trans [] t u h k = refl
text_leb_trans (c ∷ s) [] u h k = ground arith
text_leb_trans (c ∷ s) (d ∷ t) [] h k = ground arith
text_leb_trans (c ∷ s) (d ∷ t) (e ∷ u) h k = ground (arith, text_leb_trans s t u)

insert-insert :
    (k j : Text) (ks : List Text) → k ≢ j → insert k (insert j ks) ≡ insert j (insert k ks)
unfolding insert
insert-insert k j [] h = ground (arith, text_leb_total k j, text_leb_antisymm k j)
insert-insert k j (i ∷ ks) h = ground (
  arith,
  text_leb_total k j,
  text_leb_antisymm k j,
  text_leb_trans k j i,
  text_leb_trans j k i,
  text_leb_total k i,
  text_leb_total j i,
  text_leb_trans k i j,
  text_leb_trans j i k,
  insert-insert k j ks h,
)

pick-pointwise :
    (ks : List Text) (m n : Fields)
    → ((k : Text) → value_at k m ≡ value_at k n)
    → pick ks m ≡ pick ks n
unfolding pick
pick-pointwise [] m n h = refl
pick-pointwise (k ∷ ks) m n h = cc (h k, pick-pointwise ks m n h)

module _ (x : External) where
  -- One set of sorted keys, and one normal form of the value at each.
  abbrev Agree : Fields → Fields → Type 0
  Agree m n =
      (sorted_keys m ≡ sorted_keys n)
      × ((k : Text) → value_at k (normal_values x m) ≡ value_at k (normal_values x n))

  mutual
    unfolding normal sorted_keys value_at

    Reordered-normal : {v w : Json} → Reordered v w → normal x v ≡ normal x w
    Reordered-normal same = refl
    Reordered-normal (inside {m} {n} r) =
        let (e, h) = agree r in
        ap object (
          ap (λ ks. pick ks (normal_values x m)) e
          ∙ pick-pointwise (sorted_keys n) (normal_values x m) (normal_values x n) h)
    Reordered-normal (items r) = ap array (items-normal r)

    items-normal : {l k : Items} → ItemsReordered l k → normal_items x l ≡ normal_items x k
    items-normal none_left = refl
    items-normal (item r q) = cc (Reordered-normal r, items-normal q)

    agree : {m n : Fields} → FieldsReordered m n → Agree m n
    agree no_more = (refl, λ k. refl)
    agree (keep {k} {v} {w} {m} {n} r q) =
        let (e, h) = agree q in (ap (insert k) e, λ c. ground (arith, Reordered-normal r, h c))
    agree (exchange {k} {j} {v} {w} {m} ne) = (
      insert-insert k j (sort (keys m)) ne,
      λ c. ground (arith, text_eq_iff c k, text_eq_iff c j),
    )
    agree (after q r) = let (e, h) = agree q in let (e', h') = agree r in (e ∙ e', λ c. h c ∙ h' c)

is_end : Fields → Bool
is_end end = true
is_end (field k v m) = false

is_end-reordered : {m n : Fields} → FieldsReordered m n → is_end m ≡ is_end n
unfolding is_end
is_end-reordered no_more = refl
is_end-reordered (keep r q) = refl
is_end-reordered (exchange ne) = refl
is_end-reordered (after q r) = is_end-reordered q ∙ is_end-reordered r

is_empty_object-end : (m : Fields) → is_empty_object (object m) ≡ is_end m
unfolding is_end
is_empty_object-end end = refl
is_empty_object-end (field k v m) = refl

is_empty_object-reordered : {v w : Json} → Reordered v w → is_empty_object v ≡ is_empty_object w
is_empty_object-reordered same = refl
is_empty_object-reordered (inside {m} {n} r) =
    is_empty_object-end m ∙ is_end-reordered r ∙ sym (is_empty_object-end n)
is_empty_object-reordered (items r) = refl

unchanged : (m : Fields) → FieldsReordered m m
unchanged end = no_more
unchanged (field k v m) = keep same (unchanged m)

keep_if :
    (b : Bool) (k : Text) {v w : Json} {m n : Fields}
    → Reordered v w
    → FieldsReordered m n
    → FieldsReordered (if b then m else field k v m) (if b then n else field k w n)
keep_if true k r q = q
keep_if false k r q = keep r q

exchange_if :
    (a b : Bool) (k j : Text) (v w : Json) (m : Fields)
    → k ≢ j
    → FieldsReordered
        (if a then (if b then m else field j w m) else field k v (if b then m else field j w m))
        (if b then (if a then m else field k v m) else field j w (if a then m else field k v m))
exchange_if true true k j v w m ne = unchanged m
exchange_if true false k j v w m ne = keep same (unchanged m)
exchange_if false true k j v w m ne = keep same (unchanged m)
exchange_if false false k j v w m ne = exchange ne

pruned-reordered : {m n : Fields} → FieldsReordered m n → FieldsReordered (pruned m) (pruned n)
unfolding pruned
pruned-reordered no_more = no_more
pruned-reordered (keep {k} {v} {w} {m} {n} r q) =
    let bucket = text_eq k (codes "require") || text_eq k (codes "advise") in
    subst
      (λ b.
        FieldsReordered (if is_empty_bucket k v then pruned m else field k v (pruned m))
          (if bucket && b then pruned n else field k w (pruned n)))
      (is_empty_object-reordered r) (keep_if (is_empty_bucket k v) k r (pruned-reordered q))
pruned-reordered (exchange {k} {j} {v} {w} {m} ne) =
    exchange_if (is_empty_bucket k v) (is_empty_bucket j w) k j v w (pruned m) ne
pruned-reordered (after q r) = after (pruned-reordered q) (pruned-reordered r)

canonical-reordered :
    (x : External) (gate gate' : Fields)
    → FieldsReordered gate gate'
    → canonical x gate ≡ canonical x gate'
unfolding canonical
canonical-reordered x gate gate' r =
    canonical_encode-print x (object (pruned gate))
    ∙ ap print (Reordered-normal x (inside (pruned-reordered r)))
    ∙ sym (canonical_encode-print x (object (pruned gate')))

-- A map whose fields come up in another order, at any depth, has the same canonical text, and so
-- the same gate hash.
pub gate_hash-reordered :
    (x : External) (gate gate' : Fields)
    → FieldsReordered gate gate'
    → (canonical x gate ≡ canonical x gate') × (gate_hash x gate ≡ gate_hash x gate')
unfolding gate_hash
gate_hash-reordered x gate gate' r =
    let e : canonical x gate ≡ canonical x gate' = canonical-reordered x gate gate' r in
    (e, ap sha256_hex e)
