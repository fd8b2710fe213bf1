-- ===== src/Lib.antt =====
-- Verification of CrossPatch's authority core
--
-- CrossPatch takes an incident from its report to a verified patch. The incident's state machine
-- says which events may follow each other; the repositories write the events into a timeline,
-- numbered and linked by hashes; the escalation tracker limits how often the effort of a seat is
-- raised; a human approves a warrant, and the broker claims it once and runs plans of a closed
-- catalogue in a sandbox.
--
-- The files and the code:
-- Prelude and its children: results with exceptions, dictionaries, texts and Boolean tests.
-- Domain: backend/src/crosspatch/domain. Enums and Seats are enums.py and seats.py. Names, Event,
-- Persisted and Transition are state_machine.py: the two regular expressions, the classes of
-- events with their constructors' checks, `typed_event_from_payload` and `transition_incident`.
-- Timeline: `IncidentRepository.create` and `EventRepository.append` of
-- backend/src/crosspatch/db/repositories.py over the rows of db/models.py. The tables are the
-- state; a call is one step, since it runs under locks and in one transaction, and a call that
-- raises leaves the tables as they were.
-- Escalation: `EscalationTracker` of backend/src/crosspatch/orchestration/escalation.py. A method
-- returns its result, or what it raises, with the tracker that it leaves.
-- Coordinator: backend/src/crosspatch/orchestration/coordinator.py and failures.py. Outputs are the
-- seats' outputs and requests of domain/schemas.py, agents/schemas.py and evidence/views.py.
-- Session is the coordinator's state, with a log of the calls that it makes, and actions that
-- return or raise. Checks are `_validate` and `_request`, SeatRuns `_run_seat`,
-- `_run_initial_handoff` and `_escalate`, Verdicts `_resolve_verdict`, `_fail_closed` and
-- `run_incident`, and Resumption the other methods. Contracts, Rounds, Outcomes and Safety show once
-- what every invariant of the calls, the tracker and the outputs gives; Measure and Termination
-- say how much a remand takes from what the tracker allows.
-- Runner: backend/src/crosspatch/runner/catalog.py, and `ProcessReceipt` of runner/results.py.
-- Broker: backend/src/crosspatch/broker. Documents are the records of warrant.py, approval.py and
-- broker.py; Warrant and Approval are `validate_warrant_integrity` and `ApprovalService`;
-- Validation, Store and Execution are `Broker._validate_claim`, `InMemoryWarrantStore` and
-- `Broker.execute_warrant`. A call of the store is one step under its lock.
-- Validation/Integrity says what digests and which HMAC the first two have compared.
-- Paths is the policy of patch paths of paths.py, over lists of code points; Execution/Covered
-- gives it to the broker.
-- Parsing is the parsers of the three documents, and Durable `PostgresWarrantStore` of store.py over
-- the rows of WarrantRecord and MutationAuthorityRecord: a call is one transaction. Refinement,
-- Writes and Simulation relate its rows to the records in memory.
-- Scenarios: the definitions run at concrete inputs.
--
-- The coordinator calls the tracker, and the seats and the authority through `Environment`.
-- The broker calls the catalogue to resolve plans, the approval service to verify, and the store,
-- which calls the broker's validator under its lock. `append` calls the state machine.
--
-- What the code takes from elsewhere is a parameter: SHA-256, HMAC, base64 and JSON (`Hashing`,
-- `Primitives` and `Codec`, with the equality of digests and the ASCII letters of hexadecimal
-- digests as their laws), the semantic fingerprint, the worktree and the process runner
-- (`Sandbox`), the authority loader and, for the broker's validation, the path policy; what the file
-- system has under a repository's root (`Repository`), Unicode's NFKC and the decoding of UTF-8;
-- and, for the coordinator, the agents' runtime (with the handoff's `validate_inspector` callback),
-- the authority gateway and the citation authority (`Environment`), whose answers may be any, and
-- may depend on all calls made before. Times are microseconds. Every loop is structural but
-- the coordinator's over remands, which runs on fuel: sixteen is always enough, since each of three
-- seats has at most five units (two for each of two escalations, and one for a pending retry or for
-- the first output), and each remand takes one. The coordinator runs one incident at a time.
--
-- Not modelled: the checks of fields by pydantic (but of a seat's request), the evidence and export
-- services, the web interfaces, the agents and the runner's processes.
pub mod Prelude
pub mod Domain
pub mod Timeline
pub mod Escalation
pub mod Coordinator
pub mod Runner
pub mod Broker
pub mod Scenarios
