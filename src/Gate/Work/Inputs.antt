-- ===== src/Gate/Work/Inputs.antt =====
-- What is hashed for a proof of work, and what is signed, determines its parts.

use aamio_go.Prelude.{◌≡◌, ◌≢◌, [], ◌∷◌, ◌++◌, Text, All, arith}
use aamio_go.Gate.Work.{newline, pow_name, pow_input, board_pow_input}

abbrev pub OneLine : Text → Type 0
OneLine = All (λ c. c ≢ newline)

-- Two texts that begin with a line each are equal only line by line.
pub split_line :
    (a b s t : Text)
    → OneLine a
    → OneLine b
    → a ++ newline ∷ s ≡ b ++ newline ∷ t
    → (a ≡ b) × (s ≡ t)
split_line [] [] s t ha hb h = ground arith
split_line [] (d ∷ b) s t ha hb h = ground arith
split_line (c ∷ a) [] s t ha hb h = ground arith
split_line (c ∷ a) (d ∷ b) s t ha hb h = ground (arith, split_line a b s t ha.1 hb.1)

-- Work for one address, key, body and nonce is work for no other: with a key and an address of one
-- line and hashes of one line, equal inputs have equal parts. The nonce may be any text.
pow_input-injective :
    (w key hash nonce w' key' hash' nonce' : Text)
    → OneLine w
    → OneLine w'
    → OneLine key
    → OneLine key'
    → OneLine hash
    → OneLine hash'
    → pow_input w key hash nonce ≡ pow_input w' key' hash' nonce'
    → (w ≡ w') × (key ≡ key') × (hash ≡ hash') × (nonce ≡ nonce')
unfolding pow_input
pow_input-injective w key hash nonce w' key' hash' nonce' a a' b b' c c' h =
    let (_, h1) = split_line pow_name pow_name _ _ (omega arith) (omega arith) h in
    let (ew, h2) = split_line w w' _ _ a a' h1 in
    let (ek, h3) = split_line key key' _ _ b b' h2 in
    let (eh, en) = split_line hash hash' _ _ c c' h3 in (ew, ek, eh, en)

-- Work for a thread is never work for the board, whatever the parts.
pub pow_inputs_apart :
    (w key hash nonce key' hash' nonce' : Text)
    → pow_input w key hash nonce ≢ board_pow_input key' hash' nonce'
unfolding pow_input board_pow_input
pow_inputs_apart w key hash nonce key' hash' nonce' h = ground arith
