-- ===== src/Client/Allow/Keys.antt =====
-- Which keys a normalized allowlist holds.
use aamio_go.Prelude.{
  ◌≡◌, refl, true, false, ◌&&◌, ◌||◌, not, List, [], ◌∷◌, ◌++◌, Text, contains, is_empty,
  text_eq_iff, arith,
}
use aamio_go.Client.Allow.{split_commas, add_parts, add_entries, star, normalize_allow}
use aamio_go.Client.Allow.Trim.{trim_space}

-- The trimmed parts of the entries, the empty ones included.
abbrev pub names_in : List Text → List Text
names_in [] = []
names_in (part ∷ parts) = trim_space part ∷ names_in parts

abbrev pub named : List Text → List Text
named [] = []
named (entry ∷ entries) = names_in (split_commas entry) ++ named entries

abbrev pub Distinct : List Text → Type 0
Distinct [] = Unit
Distinct (k ∷ ks) = (contains k ks ≡ false) × Distinct ks

contains-append :
    (k : Text) (xs ys : List Text) → contains k (xs ++ ys) ≡ (contains k xs || contains k ys)
contains-append k [] ys = refl
contains-append k (x ∷ xs) ys = ground (arith, contains-append k xs ys)

Distinct-snoc :
    (xs : List Text) (k : Text) → Distinct xs → contains k xs ≡ false → Distinct (xs ++ k ∷ [])
Distinct-snoc [] k d n = (refl, tt)
Distinct-snoc (x ∷ xs) k d n =
    ground (
      arith,
      contains-append x xs (k ∷ []),
      text_eq_iff x k,
      text_eq_iff k x,
      Distinct-snoc xs k d.1,
    )

contains-add_parts :
    (k : Text) (parts out : List Text)
    → contains k (add_parts parts out)
      ≡ (contains k out || (not (is_empty k) && contains k (names_in parts)))
unfolding add_parts
contains-add_parts k [] out = ground arith
contains-add_parts k (part ∷ parts) out =
    let key = trim_space part in
    ground (
      arith,
      text_eq_iff k key,
      contains-append k out (key ∷ []),
      contains-add_parts k parts out,
      contains-add_parts k parts (out ++ key ∷ []),
    )

Distinct-add_parts : (parts out : List Text) → Distinct out → Distinct (add_parts parts out)
unfolding add_parts
Distinct-add_parts [] out d = d
Distinct-add_parts (part ∷ parts) out d =
    let key = trim_space part in
    ground (
      arith,
      Distinct-snoc out key d,
      Distinct-add_parts parts out d,
      Distinct-add_parts parts (out ++ key ∷ []),
    )

contains-add_entries :
    (k : Text) (allow out : List Text)
    → contains k (add_entries allow out)
      ≡ (contains k out || (not (is_empty k) && contains k (named allow)))
unfolding add_entries
contains-add_entries k [] out = ground arith
contains-add_entries k (entry ∷ allow) out =
    let parts = split_commas entry in
    ground (
      arith,
      contains-add_entries k allow (add_parts parts out),
      contains-add_parts k parts out,
      contains-append k (names_in parts) (named allow),
    )

Distinct-add_entries : (allow out : List Text) → Distinct out → Distinct (add_entries allow out)
unfolding add_entries
Distinct-add_entries [] out d = d
Distinct-add_entries (entry ∷ allow) out d =
    Distinct-add_entries allow _ (Distinct-add_parts (split_commas entry) out d)

-- For every list of entries, the normalized list has no key twice. If "*" is among the trimmed
-- parts it is "*" alone; otherwise it holds exactly the trimmed parts that are not empty.
pub normalize_allow-keys :
    (allow : List Text)
    → Distinct (normalize_allow allow)
      × (contains star (named allow) ≡ true → normalize_allow allow ≡ star ∷ [])
      × (contains star (named allow) ≡ false
          → (k : Text)
          → contains k (normalize_allow allow) ≡ (not (is_empty k) && contains k (named allow)))
unfolding normalize_allow
normalize_allow-keys allow =
    let has_star = contains-add_entries star allow [] in
    (
      ground (arith, Distinct-add_entries allow [] tt),
      λ h. ground (arith, has_star),
      λ h k. ground (arith, has_star, contains-add_entries k allow []),
    )
