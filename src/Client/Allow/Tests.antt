-- ===== src/Client/Allow/Tests.antt =====
-- The normalized list at concrete entries.
use aamio_go.Prelude.{
  ◌≡◌, refl, true, false, List, [], ◌∷◌, ◌&&◌, not, Text, text_eq, contains, is_empty, codes,
}
use aamio_go.Client.Allow.{star, normalize_allow}
use aamio_go.Client.Allow.Trim.{trim_space}
use aamio_go.Client.Allow.Keys.{named, Distinct, normalize_allow-keys}

abbrev entries : List Text
entries = codes " k1, k2,k1 " ∷ codes "k3,," ∷ []

normalized : normalize_allow entries ≡ codes "k1" ∷ codes "k2" ∷ codes "k3" ∷ []
unfolding normalize_allow trim_space text_eq
normalized = refl

any_key : normalize_allow (codes "k1, *" ∷ []) ≡ star ∷ []
unfolding normalize_allow trim_space text_eq
any_key = refl

normalize_allow-keys_example :
    Distinct (normalize_allow entries)
    × (contains star (named entries) ≡ true → normalize_allow entries ≡ star ∷ [])
    × (contains star (named entries) ≡ false
        → (k : Text)
        → contains k (normalize_allow entries) ≡ (not (is_empty k) && contains k (named entries)))
normalize_allow-keys_example = normalize_allow-keys entries
