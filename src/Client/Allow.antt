-- ===== src/Client/Allow.antt =====
-- normalizeAllow of client.go: entries split at commas, trimmed, without empty ones and repetitions.
pub mod Trim
pub mod Keys
mod Tests
use aamio_go.Prelude.{
  ℕ, Bool, true, false, ◌&&◌, ◌||◌, not, List, [], ◌∷◌, ◌++◌, Text, codes, contains, is_empty, ◌==◌,
  if◌then◌else◌,
}
use Trim.{trim_space}

-- strings.Split(s, ","): the parts, from the last to the first character.
abbrev push : ℕ → List Text → List Text
push c [] = (c ∷ []) ∷ []
push c (part ∷ parts) = (c ∷ part) ∷ parts

unfoldable pub split_commas : Text → List Text
split_commas [] = [] ∷ []
split_commas (c ∷ s) = let rest = split_commas s in if c == b',' then [] ∷ rest else push c rest

-- The inner loop. `seen` holds the keys of `out` and no other, so it is read off `out`.
unfoldable pub add_parts : List Text → List Text → List Text
add_parts [] out = out
add_parts (part ∷ parts) out =
    let key = trim_space part in
    add_parts parts (if not (is_empty key) && not (contains key out) then out ++ key ∷ [] else out)

unfoldable pub add_entries : List Text → List Text → List Text
unfolding add_parts split_commas
add_entries [] out = out
add_entries (entry ∷ entries) out = add_entries entries (add_parts (split_commas entry) out)

abbrev pub star : Text
star = codes "*"

unfoldable pub normalize_allow : List Text → List Text
unfolding add_entries
normalize_allow allow =
    let out = add_entries allow [] in if contains star out then star ∷ [] else out
