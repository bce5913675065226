-- ===== src/Lib.antt =====
-- The Go client of aamio: threads with a secret read key and a public write address, gates with
-- proof of work, signatures and sealed bodies, receipts, and the board (client.go, gate.go,
-- keys.go, address.go, codec.go, receipt.go, board.go), and a command that exchanges what they
-- make with another implementation (cmd/interop/main.go).
--
-- Codec models codec.go: base64 in both alphabets, base32, hex, and SHA-256, which is written
-- out and runs, so that the vectors of testdata/vectors.json are tests here. Address models
-- address.go: NewIDLength, W and ScopeAddress as new_id_length, w and scope_address, the
-- patterns as is_id, is_w and is_scope_key. Keys models keys.go: FromSeed, Sign, Verify, the
-- signing inputs, Seal and Open as from_seed, sign, verify, signing_input, seal and
-- open_sealed. Gate/Work models the proof of work of gate.go (ZeroBits, SolveUntil, SolveBoard
-- as zero_bits, solve_until, solve_board) and IsNonce as is_nonce, Gate/Plan the plan for a
-- gate (PlanWithin as plan_within), and Gate/Canonical the text that a gate hash is taken over
-- (Canonical, GateHash and ParseGate as canonical, gate_hash and parse_gate), with a reader of
-- such texts in Gate/Canonical/Reading, whose fuel is three times the length; canonical is of
-- decoded JSON, and canonical_any of Gate/Canonical/Values is Canonical with its error, of any
-- map. Client/Message models CheckMessage, DecodeAt and Decode of client.go, Client/Allow
-- normalizeAllow, and Client/Read ReadLimited and ReadThreadLimited around the HTTP call, as
-- read_request for what is asked and read_answer and read_thread for what is made of the
-- answer. Client/Session is the client as a state with the log of its calls: Gate, SecondsLeft,
-- ForgetGate and PlanTo as gate, seconds_left, forget_gate and plan_to, and below it Letter and
-- Send, which are Send of client.go as letter_of and send_letter. A World answers each call and
-- has the clock. Client/Session/Tasks has the same calls in parts, each of which holds the
-- mutex once, makes one call or reads the clock, and Pool of it any number of goroutines whose
-- parts come up in any order; a call and its answer are one part. Receipt models Root and
-- VerifyReceipt of receipt.go as root_of and verify_receipt; sort.Slice is any function that
-- Receipt/Order.Sorts holds of. Client/Requests models Open, Close, GetReceipt and presence,
-- which add their requests to the log, Client/Answers the methods of an Answer, and Client/Call
-- what New, NewBoard and Call do around the transport. Board models AdvisedBits and the finds
-- of board.go, Board/Calls the calls of them, Board/Post the writes (Post, ReplyInbox, Answer
-- and Withdraw as post, reply_inbox, answer and withdraw) and Board/Replies the replies
-- (decodeReplies as decode_replies): find_fields is the map that find sends, find_answer what
-- it makes of the answer, and find_in_scope is FindInScope. Steps has every call of a client
-- and its board as a step of their state, Client/Session/Notes says what a client promises
-- about gates with one note for each address, and Interop models cmd/interop/main.go. Delivery
-- follows a letter from Send to a read of it, and an answer to the reply that it is read as:
-- Returns and Answers there say what is taken of the service, which is not this program;
-- Delivery/Polls is the loop of reads that the comment on ReadLimited speaks of, over a service
-- that Gives describes.
--
-- Texts and byte slices are lists of bytes. Decoded JSON is Json, with a map as a list of
-- fields whose first field of a key counts; a nil map is the empty one. A value returned beside
-- an ok is a pair or an Option, and a sentence that the code formats for a person is a
-- constructor that holds what is formatted into it. int and int64 are unbounded integers, with
-- the range tests of the code and of strconv.ParseInt written out. A float64 of decoded JSON is
-- a sign, a mantissa and an exponent.
--
-- External holds what the client calls and does not implement: ed25519, sha512, the curve, the
-- box, the JSON encoder and decoder, and the formatting of a float. What is assumed of ed25519
-- is the record SignsWell, which Toy, an External that runs, meets, and of JSON and the box
-- SealsWell of Keys/Sealing, which boxed of Keys/Tests meets. Gate/Work/Timing has HashRate,
-- ExpectedSeconds and DescribeSeconds over any arithmetic of floats, with fuel for the loop; in
-- the plan the time that work takes on this machine is the parameter expected_seconds, in
-- nanoseconds, and the clock of a deadline a function of the attempt. The search for a nonce
-- takes fuel: solve_until_finds says how much is enough.
--
-- Not modelled: the mutex as a state, since the parts of Client/Session/Tasks are atomic and
-- never wait, an overflow of the time.Duration that a deadline is computed in, a failure of the
-- random source while a body is sealed, a Board that several goroutines call, whose descriptor
-- no lock guards, HTTP itself, the recovery from a panic in DecodeAt and the reading and
-- printing of the interop command, which are I/O or the runtime's.
pub mod Prelude
pub mod Errors
pub mod Codec
pub mod Json
pub mod Address
pub mod External
mod Toy
pub mod Keys
pub mod Gate
pub mod Client
pub mod Receipt
pub mod Board
pub mod Interop
pub mod Delivery
pub mod Steps
