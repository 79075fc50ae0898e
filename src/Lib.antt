-- ===== src/Lib.antt =====
-- riskforge: a gateway that asks several insurance carriers for quotes. POST /quotes is validated by
-- the handler, turned into a domain request and given to the orchestrator, which filters the
-- carriers, calls each through its rate limiter and its circuit breaker, fires hedges for slow ones,
-- and returns the quotes that arrived, without duplicates and sorted.
--
-- Which file models which part (the paths are those of the repository):
-- Prelude: the names the modules share, Boolean tests, lists, Go maps as lists of entries, the
--   signed integers (int, int64 and time.Duration as ℤ, with atomic.Int32 arithmetic written out modulo
--   2 ^ 32), and float64 as a parameter.
-- Domain, Domain/Errors: internal/domain: the records, the sentinel errors, `errors.Is`.
-- Breaker: internal/circuitbreaker/breaker.go: `New`, `Execute`, `executeClosed`, `executeHalfOpen`
--   as functions on the breaker's fields, for calls that do not overlap. `fn` is a function on a
--   state of its own that returns an optional error; the two readings of the clock in `Execute` are
--   arguments. Calls of the metrics recorder are logged in the field `metrics`, newest first.
--   Breaker/Spec is the state machine of the doc comment, Breaker/Refinement relates the two,
--   Breaker/History and Breaker/Trace are about sequences of calls. Breaker/Goroutines has the same
--   code one atomic operation at a time, with a program counter for each goroutine and a step relation;
--   Breaker/Slot, Breaker/Solo and Breaker/Race are about it.
-- Orchestrator: internal/orchestrator/orchestrator.go, one module to a part: Collect (the loop over
--   the results channel), Order and Sorting (`slices.SortFunc`), Response (both together), Eligible
--   (`filterEligibleCarriers`, with `ListActive` of internal/adapter/spanner/carrier_repo.go), Status
--   (`classifyError`), CacheKey (`scopedKey`), Call (`callCarrier`, which uses Breaker, Hedging/Tracker
--   and Status), Quotes (`GetQuotes` and `fanOut`, which use Eligible, Response and CacheKey), Outcomes
--   (what `GetQuotes` may answer, described on its own), Preparation (`New`, and what
--   `fanOut` makes before its goroutines start), Rounds (the calls of all carriers of a request, with
--   hedges, and requests one after another, over the maps of the orchestrator), Sharing (overlapping calls of
--   `GetQuotes`, with singleflight and the cache, as a step relation; Sharing/Flights, Waits,
--   Answers and Progress are about it), FanOut
--   (the goroutines of one `fanOut`, with those of its hedges, as a step relation on the channel and
--   what each goroutine waits for; FanOut/Room and FanOut/Ending are about it).
-- Hedging: internal/orchestrator/hedging.go: Candidate (`selectHedgeCandidate`), Tracker
--   (`EMATracker` for calls that do not overlap), Record (its `Record` one atomic operation at a time),
--   Monitor (the loop of `hedgeMonitor`, with Quiet about it).
-- Adapter: internal/adapter: Http (`HTTPCarrierConfig.withDefaults`, `Post`, `doOnce` of
--   http_carrier.go) and Retry about it, Registry (adapter.go, and the Delta adapter of
--   delta_carrier.go), Delta (Delta over HTTP, the two together), Mock (mock_carrier.go)
--   with its carriers in Presets.
-- RateLimiter: internal/ratelimiter/limiter.go.
-- Wiring: internal/cli/run.go: what `Run` gives each carrier, over Breaker, RateLimiter, Hedging and
--   Adapter; Wiring/Carriers: which carriers there are; Wiring/Process: `Run` from the environment to
--   its return, `main` of cmd/api/main.go, and NewClient of internal/adapter/spanner/client.go
--   (Process/Tidiness and Process/Database are about it).
-- Spanner: internal/adapter/spanner: Quotes (quote_repo.go) and Appetite (appetite_repo.go, with
--   internal/domain/appetite.go).
-- Middleware: internal/middleware: Auth (`RequireAPIKey` and `authFailureLimiter` of auth.go), Eviction
--   (`startCleanup`, with Eviction/Sweeps about it),
--   Concurrency (the semaphore of concurrency.go as a step relation), Chain (`AuditLog` of audit.go,
--   `SecurityHeaders` of security.go, and the chain of handlers that `Run` builds, with what each writes;
--   Chain/Verdict is about it), Writer (the ResponseWriter of net/http, as far as the chain uses it).
-- Handler: internal/handler/http.go: Validate (`validateQuoteRequest`, `buildDomainRequest`), Post
--   (`handlePostQuotes`, `handleOrchError`, `writeError`), Gateway (the handler over `GetQuotes`), Health
--   (`RegisterRoutes`, `handleReadyz`, `Shutdown`).
-- Metrics: internal/metrics/prometheus.go: the recorder's methods as changes of what is exported;
--   Recorders: the calls of the port, the vectors of `New`, and the counting recorder of
--   internal/testutil/recorder.go; Recorders/Agreement is about both recorders.
-- Cleanup: internal/cleanup/cleanup.go: `Start`, `sweep` and calls of `Stop` as a step relation;
--   Cleanup/Stopping is about it.
-- Service: the parts put together: Warmup (the orchestrator that `Run` makes, with Wiring,
--   Orchestrator/Preparation and Hedging), Start (requests from the start on, with Wiring and
--   Orchestrator/Rounds), Cache (`GetQuotes` over the repository of quote_repo.go), Server (the
--   chain of handlers around the mux and the handlers of internal/handler/http.go, over `GetQuotes`),
--   Quoted (the way of a valid request to POST /quotes through all of them).
-- The modules Tests and Runs hold the theorems at concrete inputs and runs of the code.
--
-- Numbers and bounds. The counters of a breaker are int32: they wrap modulo 2 ^ 32 and a threshold is
-- converted with `int32(...)`; the theorems on well-formed breakers ask for thresholds below 2 ^ 31.
-- Times are Unix nanoseconds in ℕ, a duration is a ℤ that does not overflow int64. The observation
-- count of a tracker is an int that stays below 2 ^ 63. Text is a `String`, whose `len` counts bytes of
-- UTF-8. The fuel of Breaker/Solo is 14: the longest path through Execute has fourteen atomic
-- operations.
--
-- Parameters. float64 arithmetic (Prelude/Float) is a record of operations; the code that only
-- compares floats assumes the laws of IEEE 754 comparisons that hold with NaN. The carrier call
-- `fn`, the orchestrator behind the handler and the clock are arguments. The JSON decoder's result
-- is an argument of the handler, as what the HTTP client makes of a request is one of the retries.
-- The loop of the retries is by recursion on the attempts that are left, which are MaxRetries + 1
-- at the start. The limiter of an address, of golang.org/x/time/rate, is a record of operations.
-- The Spanner client of Quotes is a record of operations with laws: at most one row for a primary
-- key, which InsertOrUpdate replaces, and the rows that the query's WHERE names, each once. The query of
-- Appetite is an argument, with the law that its rows are those that satisfy its conditions. The
-- random numbers, the timer and the clock of Mock are a record of operations, with the law that
-- `rand.Intn` is below its argument. RateLimiter stands over the limiter of
-- golang.org/x/time/rate; Middleware/Eviction/Sweeps assumes of such a limiter that it is like a
-- new one when it was not used for the time after which it is evicted. In FanOut a call of a
-- carrier is one step with an open result, and the deadline may pass at any step.
--
-- Service/Warmup takes the order of Go's range over a map as an argument, with the law that it gives
-- entries of the map, and assumes that a duration of an int64 in milliseconds is below math.MaxFloat64.
-- Orchestrator/Rounds takes the readings of the clock in each call, and which hedges there are, as
-- arguments.
-- Orchestrator/Sharing takes singleflight.Group as a record of operations, with the laws that at most
-- one caller's function runs for a key, from its entry to its return. Wiring/Process takes the
-- environment, the text functions of Go's library, the Spanner client and the HTTP server as one.
-- In Service/Server how the mux matches a pattern, the JSON decoder and encoder, the handler of
-- /metrics and the answer to an unknown path are a record of operations; the last two are assumed to
-- leave the security headers. The writer of net/http keeps the status and the headers of the first
-- WriteHeader, or of the first write when there was none.
--
-- Not modelled: the inside of the HTTP server, of its mux and of its drain, JSON texts and messages, log
-- lines other than the audit line, the Prometheus client and its registry, the text of SQL, and the
-- Spanner client itself. Quotes takes the results in the order of their arrival as an argument. Call
-- takes the limiter's `Wait` as an argument. In Sharing what a fan-out does is done at its end.
pub mod Prelude
pub mod Domain
pub mod Breaker
pub mod RateLimiter
pub mod Hedging
pub mod Orchestrator
pub mod Adapter
pub mod Spanner
pub mod Middleware
pub mod Handler
pub mod Metrics
pub mod Cleanup
pub mod Wiring
pub mod Service
