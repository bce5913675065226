-- ===== src/Board/Tests.antt =====
-- The theorems of Board at a find from cursor 5, and at answers to it.
use aamio_go.Prelude.{true, pos, [], ◌∷◌, some, Text, codes, ◌≡◌, refl, text_eq}
use aamio_go.Errors.{ok}
use aamio_go.Json.{end, field, number, string, get}
use aamio_go.Json.Number.{parse_int}
use aamio_go.Address.{is_id_char, scope_address}
use aamio_go.Codec.Base32.{base32}
use aamio_go.Codec.Sha256.{sum256}
use aamio_go.Client.Http.{Answer}
use aamio_go.Board.{FindOptions, find_answer, find_in_scope}
use aamio_go.Board.Reads.{Cursor, find_answer-Cursor}

abbrev options : FindOptions
options = record {
  kind = codes "need";
  tags = codes "go" ∷ [];
  lang = [];
  key = [];
  after = pos 5;
  wait = pos 60;
  min_work_bits = pos 0;
}

abbrev answer : Text → Answer
answer next = record {
  status = 200;
  body = some (field (codes "next") (number next) end);
  text = [];
  seconds_left = [];
}

-- A next that is no integer sends the cursor to 0.
next_resets : (find_answer options (answer (codes "1e2"))).1 ≡ pos 0
unfolding find_answer get text_eq parse_int
next_resets = refl

next_moves : (find_answer options (answer (codes "9"))).1 ≡ pos 9
unfolding find_answer get text_eq parse_int
next_moves = refl

abbrev scope_key : Text
scope_key = codes "abcdefghijklmnopqrstuvwxyz"

abbrev of_scope : Answer
of_scope = record {
  status = 200;
  body = some (field (codes "scope") (string (codes "w5ubokh27waqrm2syax7")) end);
  text = [];
  seconds_left = [];
}

is_read : find_in_scope scope_key options of_scope ≡ ok ([], pos 5)
unfolding find_in_scope scope_address is_id_char text_eq get base32 sum256
is_read = refl

find_answer-Cursor_example :
    Cursor (pos 5) true (answer (codes "9")).body (find_answer options (answer (codes "9"))).1
find_answer-Cursor_example = find_answer-Cursor options (answer (codes "9"))
