-- ===== src/Client/Read/Tests.antt =====
-- The theorems of Read at an answer with a signed and a forged message.
use mathlib.Core.List.{cons-ne-nil}
use aamio_go.Prelude.{text_eq, pos, ◌≡◌, ◌≢◌, ◌⊎◌, refl, [], ◌∷◌, some, none, map, All, codes}
use aamio_go.Json.{nil, cons, end, field, number, array, object}
use aamio_go.Toy.{toy}
use aamio_go.Client.Message.Tests.{address, signed, forged}
use aamio_go.Client.Allow.{star, normalize_allow}
use aamio_go.Client.Allow.Trim.{trim_space}
use aamio_go.Client.Http.{Answer}
use aamio_go.Client.Read.{Thread, read_answer, is_allowed, kept_out, read_thread}
use aamio_go.Client.Read.Policy.{
  select, refused, Trusted, read_thread-partition, read_thread-Trusted,
}
use aamio_go.Client.Read.Limits.{Cursor, read_answer-Cursor}

abbrev thread : Thread
thread = record { id = codes "abcdefghijklmnopqrstuvwxyz"; w = address; allow = codes "*" ∷ [] }

abbrev two : Answer
two = record {
  status = 200;
  body = some (
      field (codes "next") (number (codes "2"))
        (field (codes "messages") (array (cons (object signed) (cons (object forged) nil))) end));
  text = [];
  seconds_left = [];
}

any_key : normalize_allow thread.allow ≡ star ∷ []
unfolding normalize_allow trim_space text_eq
any_key = refl

has_list : normalize_allow thread.allow ≢ []
has_list = rw any_key (cons-ne-nil star [])

read_thread-Trusted_example :
    All
      (Trusted toy none thread (pos 0) two (normalize_allow thread.allow))
      (read_thread toy none thread (pos 0) two).0
read_thread-Trusted_example = read_thread-Trusted toy none thread (pos 0) two has_list

read_thread-partition_example :
    let allow = normalize_allow thread.allow in
    let r = read_answer toy none thread.w (pos 0) two in
    (allow ≢ []
      → read_thread toy none thread (pos 0) two
        ≡ (select (is_allowed allow) r.0, map (kept_out allow) (select (refused allow) r.0), r.1))
    × (allow ≡ [] → read_thread toy none thread (pos 0) two ≡ (r.0, [], r.1))
read_thread-partition_example = read_thread-partition toy none thread (pos 0) two

read_answer-Cursor_example :
    (Cursor toy none address (pos 0) two (pos 2)
      → (read_answer toy none address (pos 0) two).1 ≡ pos 2)
    × ((read_answer toy none address (pos 0) two).1 ≡ pos 2
        → (pos 2 ≡ pos 0) ⊎ Cursor toy none address (pos 0) two (pos 2))
read_answer-Cursor_example = read_answer-Cursor toy none address (pos 0) two (pos 2)
