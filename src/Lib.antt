-- ===== src/Lib.antt =====
-- services/api of ParityLab: runs that are simulated, recorded and verified, the outbox between the API and its
-- worker, and the accounts and requests in front of them. All paths below are under services/api/internal.
--
-- The parts. The HTTP API (httpapi/) checks a request's origin and its session, which the service of
-- accounts (auth/service.go) answers from its storage with secrets that secrets/cipher.go seals, and
-- calls the engine. The service (engine/service.go) answers a request for a run: it replays the run of a key
-- that was used before, or builds a timeline with its report (engine/timeline.go, engine/scenarios.go)
-- and stores the bundle in the repository, which enqueues a message in its outbox; a run over a payment
-- (engine/stripe_service.go) asks Stripe for the payment first. A worker
-- (worker/worker.go) claims the message under a lease, renews the lease while it works, and settles
-- it. Its job for a run is to drive the verification relay (verification/contract.go) against the
-- merchant that it keeps in the same repository, and to record the evidence in the run's report;
-- its job for a webhook is to project it into the run that waits for it. A reader follows a run's events
-- in a stream, page by page.
--
-- The files.
-- - Prelude: Boolean tests, lists by native numbers, Go maps as tables, text and its splitting, numbers in
--   text, white space at its ends, and hexadecimal text.
-- - Failure: Go's errors, and a value or an error (Try).
-- - Domain, Domain/Errors: domain/models.go and domain/errors.go.
-- - Engine/Records: engine/repository.go. Engine/Timeline, Engine/Scenarios: the files of these names.
-- - Engine/Memory and its children: engine/memory_repository.go. The state is the record
--   MemoryRepository with the source's fields; an operation takes the state and returns its value
--   with the state after it. The mutex is held from end to end by every operation, so each is one
--   step. Outbox/Steps makes the outbox a step relation: any calls, in any order, by any owners, at
--   a clock that does not run backwards.
-- - Engine/Bundle, Engine/Service and its children: engine/service.go over the in-memory repository.
--   createRun is service_create_run, cut where the source returns early into request_run,
--   replay_or_allocate and allocate_run; a method Service.X that reads is service_x.
-- - Engine/Stripe and its children: engine/stripe_service.go. createPaymentIntentRun is cut where it returns
--   early; the gateway is a record of two operations on a state of its own.
-- - Verification/Signing, Verification/Merchant, Verification/Relay: verification/contract.go. A
--   target of the relay is a step on a state of its own. Verification/Relay/Faults states what a
--   target must do (AppliesOnce) for a run of the relay to converge; Verification/Reference shows it
--   of the bundled merchant and Worker/Convergence of the merchant in the repository.
-- - Worker, Worker/Jobs, Worker/Loop: worker/worker.go and worker/reference_merchant.go. A round of the
--   loop of Run is a turn: the context of its job and the clocks that it reads.
-- - Secrets: secrets/cipher.go.
-- - Auth: auth/models.go, with the port to the storage (Repository) as a record of operations on any
--   state. Auth/Memory: auth/memory_repository.go, which fills the port; Auth/Memory/Steps makes its
--   changes a step relation. Auth/Password, Auth/Service and its children: auth/service.go over the port.
-- - Http/Signature, Http/Webhook: httpapi/webhook.go. Http/Stream, Http/Requests, Http/Reads, Http/Runs:
--   httpapi/handler.go. Http/Limiter, Http/Logins, Http/Settings and the sessions of Http/Reads:
--   httpapi/auth_routes.go. A handler takes a request with what it reads of it and returns what it writes.
-- - Tests: the theorems at concrete inputs.
--
-- How the source is read. A time is the number of nanoseconds since Go's zero time, a duration a
-- number of nanoseconds; the clock is an argument of each call that reads it, and sums of times do
-- not overflow. An int that counts is a natural number; one that a caller may send negative is an ℤ. A map
-- is a table with one entry for a key in the order of first insertion, which is the order in which a
-- loop over it runs. A text is its bytes. SHA-256,
-- HMAC-SHA256, Argon2id, AES-GCM, base64, the mapping to lower case, the splitting of an address, the JSON
-- and decimal readers and Stripe's gateway are parameters, and what a random draw gives is an
-- argument, none where it fails. What a theorem asks of a parameter, it names: that the MAC consists of bytes,
-- that two named texts have different MACs or digests, that the cipher unseals what it sealed, that Stripe
-- confirms an account, that base64 is read back, and that a password's key has its length.
-- The loops are structural recursions on lists. Fuel is used in the width of a decimal number, where the
-- number itself is enough, and in the loops of Http/Stream over pages, where more than the number of
-- events behind the cursor is enough, and in the rounds of Worker/Loop between two ticks, where more than the
-- attempts left of the open messages, each message counted once more, is enough.
--
-- Not modelled: the PostgreSQL repositories (SQL run by a database), the client of Stripe's library, the
-- routing table and the JSON texts, the handlers of health, the overview and the scenarios (they write a value
-- and ask for no session), and the commands. The polling loops of the worker and of a stream
-- wait for tickers; here their ticks are a list, after which the context is cancelled. The heartbeat runs
-- beside a job in the source; here its ticks are a list, taken after the job, which does not touch the
-- outbox (Worker/Frame).
pub mod Prelude
pub mod Failure
pub mod Domain
pub mod Secrets
pub mod Auth
pub mod Verification
pub mod Engine
pub mod Http
pub mod Worker
pub mod Tests
