-- ===== src/Lib.antt =====
-- The decision loop of the inventory optimizer, from computed policies to stock levels that are
-- written back, and the delivery of the events that trigger it.
--
-- How the parts interact. The recommendation engine reconciles the open repair orders of a part
-- (Repair), constrains the policy that it computes (Constraints), builds and prunes the menu of
-- candidates for a decision (Candidate), chooses one candidate per key under a budget (Portfolio)
-- and returns a batch of recommendations (Contracts). The supervisor of the agent spine runs over
-- the batch (Supervisor): the guardrails decide on each recommendation (Guardrail), and the
-- approved ones are written to the writeback target, which keeps levels, ledgers and the requests
-- it has seen (Writeback). The event publisher (Events, Delivery) sends validated events to an
-- endpoint that accepts each one once.
--
-- Which file models what, with paths from the root of the repository:
--   Enums, Contracts: services/recommendation-engine/src/trax_io_reco/contracts, enums.py,
--     policy.py, context.py and recommendation.py; of the records, the fields that are read.
--   Constraints: trax_io_reco/policy/constraints.py; `apply_constraints` in its steps.
--   Candidate: trax_io_reco/candidate, with the records of contracts/candidate.py in Candidate/Types
--     and their validators in Candidate/Valid and Candidate/Planner. frontier.py is
--     Candidate/Frontier, planner.py Candidate/Planner, and reconcile.py Candidate/Reconcile (the
--     sums, costs and constraints), Candidate/Builders (`reconcile_candidate`, the candidate that
--     changes nothing) and Candidate/Transfers (transfer first, purchase the rest).
--   Portfolio: trax_io_reco/portfolio/optimizer.py, with records of contracts/planning.py; `solve`
--     is in Portfolio/Solve.
--   Repair: trax_io_reco/position/repair_pipeline.py, with the messages and validators of
--     contracts/repair.py in Repair/Types, the lines and their reasons in Repair/Lines, and
--     `build_repair_pipeline` with its loops in Repair. Repair/Lawful, Screening, Capping and Notices
--     follow the loops, Repair/Totals the whole.
--   Writeback: services/agent-spine/src/trax_io_spine/writeback/target.py; the state of
--     `InMemoryWritebackTarget` is the record `Target`, `_record`, `write` and `rollback` are
--     `record_entry`, `write` and `rollback`, and a sequence of calls is a list of `Call`.
--   Guardrail: trax_io_spine/guardrail, hard.py, policy.py and enforce.py.
--   Supervisor: trax_io_spine/supervisor.py; the lists that `run` fills are the record `Outcomes`.
--   EventLane: trax_io_spine/event_lane, events.py, canonical_adapter.py, keys.py, online.py,
--     handler.py and ingestor.py: what the consumer of the events recomputes, each event once.
--     EventLane/Adapters is adapters.py, the engine's views of the bundles of one tenant, and
--     EventLane/Bundles the bundle of services/feature-store, schemas/features.py, with its checks.
--   Events: services/event-publisher/src/trax_io_event_publisher/schemas.py, payloads and validators;
--     Events/Patterns has its regular expressions.
--   Delivery: trax_io_event_publisher/publisher.py and dlq.py in Delivery/Publisher, endpoint.py in
--     Delivery/Endpoint, and transport.py over a network with faults in Delivery/Network.
--   Base: shared notation, dictionaries in insertion order, lists and their shuffles, sorting.
--   Tests: runs on concrete inputs.
--
-- Conventions. Counts are natural numbers; a time counts microseconds and a date days. An exception
-- is `none`. What a function reads from the clock is an argument. A loop is recursion over its list,
-- and the retry loop of the publisher over its `max_attempts` rounds, so that no model runs on fuel.
--
-- Parameters, for code that is not in the repository: Python's floats with the laws of `<=` on
-- numbers that are no NaN and of the signs of results (Contracts.Floats), or the operations on
-- finite floats alone (Constraints), or a plain type with the waits that `sleep` takes (Delivery);
-- the printing of numbers and times; exact decimals with the laws of an ordered group
-- (Candidate.Decimals), which hold while no amount exceeds the 28 digits of a decimal context, the
-- stripping of texts, and the digests over JSON and SHA-256 (Candidate); the searches of scipy and
-- the float tests on what they find (Portfolio); the trimming and the case of texts, the library's
-- parser of times and their conversion to UTC, which may overflow (Repair); the decoding and
-- encoding of bodies, what pydantic makes of the dump of a bundle, the rate limiter, the UUID test
-- and the digits of a regular expression (Events, Delivery).
--
-- Not modelled: the statistics behind the recommendations (forecasts, service levels, the searches
-- of the portfolio optimizer), which are float arithmetic over numerical libraries; the stores over
-- Postgres, DynamoDB and S3, the HTTP applications, the command lines and the Java service, which
-- are input and output; and the logging of the modelled functions.
pub mod Base
pub mod Enums
pub mod Contracts
pub mod Writeback
pub mod Guardrail
pub mod Supervisor
pub mod EventLane
pub mod Events
pub mod Delivery
pub mod Constraints
pub mod Candidate
pub mod Portfolio
pub mod Repair
pub mod Tests
