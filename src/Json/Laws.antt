-- ===== src/Json/Laws.antt =====
-- Laws of the maps.
use aamio_go.Prelude.{◌≡◌, refl, some, Text, text_eq, text_eq_iff, if◌then◌else◌, arith}
use aamio_go.Json.{Json, Fields, end, field, get, put}

pub get-put :
    (k j : Text) (v : Json) (m : Fields)
    → get j (put k v m) ≡ (if text_eq j k then some v else get j m)
unfolding get put
get-put k j v end = refl
get-put k j v (field i u m) =
    ground
      (arith, text_eq_iff k j, text_eq_iff j k, text_eq_iff k i, text_eq_iff j i, get-put k j v m)
