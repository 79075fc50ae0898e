-- ===== src/Middleware/Writer.antt =====
-- The ResponseWriter of Go's net/http, as its documentation has it: a header can be changed until the
-- status is sent, the first WriteHeader sends it, and a Write sends 200 if there was none before.
use riskforge.Prelude.{ℕ, String, List, [], ◌∷◌, Option, none, some, Dict, write}

pub record Sent : Type 0 where
  pub status : ℕ
  pub header : Dict String

-- `codes` has the arguments of all calls of WriteHeader, the last one first.
pub record ResponseWriter : Type 0 where
  pub header : Dict String
  pub codes : List ℕ
  pub sent : Option Sent
  pub body : List String

abbrev pub fresh_writer : ResponseWriter
fresh_writer = record { header = []; codes = []; sent = none; body = [] }

abbrev pub set_header : String → String → ResponseWriter → ResponseWriter
set_header name value w = record w { header = write w.header name value }

abbrev pub sent_first : Option Sent → ℕ → Dict String → Sent
sent_first none code header = record { status = code; header = header }
sent_first (some s) code header = s

abbrev pub write_header : ℕ → ResponseWriter → ResponseWriter
write_header code w = record w {
  codes = code ∷ w.codes;
  sent = some (sent_first w.sent code w.header);
}

abbrev pub write_body : String → ResponseWriter → ResponseWriter
write_body text w = record w { sent = some (sent_first w.sent 200 w.header); body = text ∷ w.body }

-- What the client gets when the handler has returned.
abbrev pub response : ResponseWriter → Sent
response w = sent_first w.sent 200 w.header
