-- ===== src/Client/Http.antt =====
-- What client.go asks of an HTTP service, and what it keeps of an answer.
use aamio_go.Prelude.{ℕ, List, Option, Text}
use aamio_go.Json.{Fields}

-- The two hosts, Client.Host and Board.Host.
pub data Service : Type 0 where
  aamio board : Service

pub record Request : Type 0 where
  pub service : Service
  pub method : Text
  pub path : Text
  pub body : Option Text
  pub headers : List (Text × Text)

-- Status 0 is no answer at all. The body is none when the text was no JSON object; of the headers
-- the client reads X-Seconds-Left, empty when it is not there.
pub record Answer : Type 0 where
  pub status : ℕ
  pub body : Option Fields
  pub text : Text
  pub seconds_left : Text
