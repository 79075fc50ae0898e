-- ===== src/Middleware/Tests.antt =====
-- The theorems on authentication at concrete requests, with a limiter that counts to two, and on the
-- limit of requests in flight.
use text.Mathlib.Text.{◌==◌ as same_text}
use riskforge.Middleware.Concurrency.{
  Gate, rejected, service_unavailable, leaving, GateSteps, open_gate, none_yet, step, arrives,
  admitted, refused, handler_returns, in_flight, departing, in_flight_bounded,
}
use riskforge.Middleware.Eviction.{Event, asks, records, sweeps, answers, unswept}
use riskforge.Middleware.Eviction.Sweeps.{Refilling, answers-unswept}
use riskforge.Middleware.Writer.{write_body, response}
use riskforge.Middleware.Chain.{Handler, write_json, Server, security_header_list, serve}
use riskforge.Middleware.Chain.Verdict.{
  LeavesHeaders, json_LeavesHeaders, start, carry_out, admitted, guarded_writer, HasAll,
  serve-verdict,
}
use riskforge.Prelude.Int.{pos}
use riskforge.Prelude.{
  erase, false, ltb, this, later, total, ◌≤◌, arith, ℕ, ◌+◌, ◌≡◌, refl, String, true, List, [], ◌∷◌,
  Option, some, none, leb, any, read, write, if◌then◌else◌,
}
use riskforge.Middleware.Auth.{
  try_record_failure, HttpRequest, served, too_many_requests, Limiting, AuthFailureLimiter,
  is_exhausted, get_or_create, require_api_key, authenticate, trim_prefix, without_prefix,
  match_key, key_id, decide, credential, outcome, require_api_key-decide,
}

abbrev counting : Limiting
counting = record {
  Limiter = ℕ;
  fresh = 0;
  is_spent = λ now n. leb 2 n;
  allow = λ now n. (n + 1, true);
}

abbrev clean : AuthFailureLimiter counting
clean = record { ips = []; last_seen = [] }

abbrev request : String → HttpRequest
request authorization = record {
  path = "/quotes";
  remote_addr = "10.0.0.1:99";
  remote_host = "10.0.0.1";
  authorization = authorization;
}

-- The handler behind counts its calls and answers with its client.
abbrev echo : Option String → ℕ → ℕ × Option String
echo client n = (n + 1, client)

abbrev keys : List String
keys = "short" ∷ "a-long-key-1" ∷ []

long_key_served :
    outcome counting echo keys ("/healthz" ∷ []) (
      require_api_key counting echo keys
        ("/healthz" ∷ [])
        5
        (request "Bearer a-long-key-1")
        clean
        0)
    ≡ (1, served (some "a-long-k..."))
unfolding require_api_key authenticate is_exhausted get_or_create trim_prefix without_prefix
    match_key key_id read write
long_key_served = refl

require_api_key-decide_example :
    outcome counting echo keys
      ("/healthz" ∷ [])
      (require_api_key counting echo keys ("/healthz" ∷ []) 5 (request "Bearer short") clean 0)
    ≡ (if any (λ p. same_text p "/quotes") ("/healthz" ∷ [])
        then (1, served none)
        else if (is_exhausted counting 5 "10.0.0.1" clean).1
        then (0, too_many_requests)
        else decide counting echo keys ("/healthz" ∷ []) (credential "Bearer short") 0)
require_api_key-decide_example =
    require_api_key-decide counting echo keys ("/healthz" ∷ []) 5 (request "Bearer short") clean 0

-- A gate for one request at a time: the first of two is served and returns, the second is refused.
abbrev busy_gate : Gate
busy_gate = record { max = 1; sem = 1; handlings = rejected service_unavailable ∷ leaving ∷ [] }

two_requests : GateSteps (open_gate 1) 5 busy_gate
two_requests =
    step
      (step (step (step (step none_yet arrives) (admitted this (omega arith))) arrives)
        (refused this (omega arith)))
      (handler_returns (later this))

in_flight_bounded_example :
    (total in_flight busy_gate.handlings ≤ 1)
    × (busy_gate.sem ≡ total in_flight busy_gate.handlings)
    × (total departing busy_gate.handlings ≤ busy_gate.sem)
in_flight_bounded_example = in_flight_bounded 1 5 busy_gate two_requests

-- A limiter that allows two failures and is full again after 300 without one.
record Bucket : Type 0 where
  last : ℕ
  failures : ℕ

abbrev counted : ℕ → Bucket → ℕ
counted now b = if ltb (b.last + 300) now then 0 else b.failures

abbrev refilling : Limiting
refilling = record {
  Limiter = Bucket;
  fresh = record { last = 0; failures = 0 };
  is_spent = λ now b. leb 2 (counted now b);
  allow = λ now b. (record { last = now; failures = counted now b + 1 }, ltb (counted now b) 2);
}

refilling_law : Refilling refilling 300
refilling_law = record {
  used_at = λ b. b.last;
  fresh_used = refl;
  allow_used = λ now b h. omega arith;
  refilled = λ now b h. ground arith;
}

-- The address is swept between its second failure and its next request.
abbrev events : List (Event refilling)
events =
    records 10 "10.0.0.1"
    ∷ records 20 "10.0.0.1"
    ∷ asks 30 "10.0.0.1"
    ∷ sweeps 400
    ∷ asks 500 "10.0.0.1"
    ∷ []

answers-events :
    answers refilling (pos 300) events (record { ips = []; last_seen = [] })
    ≡ true ∷ true ∷ true ∷ false ∷ []
unfolding answers is_exhausted try_record_failure get_or_create read write erase
answers-events = refl

answers-unswept_example :
    answers refilling (pos 300) events (record { ips = []; last_seen = [] })
    ≡ answers refilling (pos 300) (unswept refilling events) (record { ips = []; last_seen = [] })
answers-unswept_example =
    answers-unswept refilling 300 refilling_law events
      (omega arith, (omega arith, (omega arith, (omega arith, (omega arith, tt)))))

-- A mux that answers "ok" and counts its calls.
abbrev ok_mux : Handler ℕ
ok_mux r client e = record { world = e.world + 1; writer = write_body "ok" (write_json e.writer) }

ok_mux-LeavesHeaders : LeavesHeaders ok_mux
ok_mux-LeavesHeaders r client e name fresh listed =
    rw fresh (json_LeavesHeaders e.writer name listed)

abbrev audited : Server counting ℕ
audited =
    serve counting ℕ keys ("/healthz" ∷ []) 100 ok_mux 5 3 (request "Bearer short") none
      (start counting keys ("/healthz" ∷ []) 100 ok_mux clean 0 [])

serve-verdict_example :
    (audited.exchange
      ≡ carry_out ok_mux
          (request "Bearer short")
          (admitted (some "short"))
          (record { world = 0; writer = guarded_writer }))
    × HasAll security_header_list (response audited.exchange.writer).header
    × (audited.audit ≡ record { path = "/quotes"; status = 200; client_id = "" } ∷ [])
unfolding serve is_exhausted get_or_create read write without_prefix key_id require_api_key
    trim_prefix match_key
serve-verdict_example =
    serve-verdict counting keys ("/healthz" ∷ []) 100 ok_mux ok_mux-LeavesHeaders 5 3
      (request "Bearer short") clean 0 []
