-- ===== src/Lib.antt =====
-- The verbs of the event module: registration and the seat count, the public intake before it, the
-- sale seam, the booth exchange, the registration desk, the event verbs with their publication gate,
-- the capability tokens and the ticket feed behind them, the lead rules and their generation, the
-- scheduler's pass over one row, and the two generated state machines.
--
-- Parts and files (paths from the repository's root):
-- - Store, Store/Rows, Store/Errors: the tables as lists of rows, the enums of the migrations,
--   `EventError` of src/application/service/event_error.rs, and the result type of every verb.
-- - Seat: src/infrastructure/persistence/seat_repository.rs. Seat/Register is `register_core` with
--   `register` and `register_sale_linked`, Seat/Transition is `transition`, Seat/Reads is `seat_counts`,
--   `availability` of seat_service.rs, the lookups and `sync_from_partner`, Seat/Barcode is
--   `mint_barcode`. The children are named for what they prove.
-- - Seam: src/infrastructure/persistence/sale_seam_repository.rs: `claim`, `on_order_confirmed`,
--   `on_order_cancelled`, `on_order_paid`. The mint calls `register_core` of Seat/Register.
-- - Booths: src/infrastructure/persistence/booth_command_repository.rs, every verb that writes.
-- - Desk: `register_attendee` of src/application/service/desk_service.rs, over Seat/Transition.
-- - Scheduler: `run_one` of src/application/service/scheduler_service.rs with the statements of
--   src/infrastructure/persistence/scheduler_repository.rs that it calls; Scheduler/Pass is the walk.
-- - Lead: the rule verbs of src/infrastructure/persistence/lead_command_repository.rs. Lead/Queue is its
--   queue of requests (`claim_next_due_request`, `try_lease_request_of_event`, the finishes),
--   Lead/Engine its eligible rows and provenance, Lead/Generate is `generate_groups` and Lead/Pass is
--   `run_one`, `run_due_lead_requests` and `run_request_of_event` of
--   src/application/service/lead_generation_service.rs, Lead/Commands is
--   src/application/service/lead_command_service.rs. The registration verbs of Seat and the rule verbs
--   arm the queue, the pass walks it. Lead/Provenance, Lead/Round and Lead/Drain, with Lead/Drain/Answers on the sink's refusals and
--   Lead/Drain/Walk on the rules, are about the walk.
-- - Capability: src/application/service/capability.rs: Capability/Base64 is its base64url,
--   Capability/Token is `sign`, `mint`, `verify` and the two minting functions.
-- - Event: src/infrastructure/persistence/event_command_repository.rs; Event/Tickets is
--   src/application/service/my_tickets_service.rs, which verifies a token of Capability, asks the
--   publication gate of Event and reads the registrations of Seat.
-- - Intake: src/application/service/intake_service.rs, and `register` of
--   src/application/service/registration_service.rs, over Seat/Register.
-- - Workflow: the generated machines of src/domain/state_machine.
-- - Base: tests on numbers, tables as lists with the lemmas on counts, texts as lists of code points.
-- - Samples and the files named Examples: small databases, and each theorem applied to one.
--
-- How state is modelled. A verb is a function from the record `Db` to a result with the value it
-- returns and the next `Db`. An error carries no `Db`: the transaction is rolled back. The verbs take
-- row locks before they count (`FOR UPDATE`), so concurrent calls are a sequence of whole calls; the
-- histories in Seat/Capacity, Seam/Inbox and Booths/Exclusivity are lists of calls, refused ones
-- included. The desk reads its row without a lock before its transition; a scan is one whole call here,
-- so two scans that overlap in time are not represented. A materialization reads the scheduler row
-- that it is given, where the source reads the stored one by its id, and every registration has its
-- creation stamp, which a trigger sets. A uuid is a number, a timestamp a number of seconds, a text a
-- list of code points, the
-- machine integers of the seat count are naturals (seats_max is not negative by its CHECK, and the
-- i64 subtraction of the availability is cut off at 0 by the source). Where a call reads a clock, a
-- fresh uuid, random bytes, the text form of a uuid, `str::parse::<f64>`, `str::to_lowercase` or a
-- declared CHECK on a text, the value or function is a parameter (Env, SeamEnv, BoothEnv, and TokenLib
-- with HMAC-SHA256 and the JSON of the claims, LeadHost with the host's lead sink).
-- Unique indexes and foreign keys are tests of the insert, with the error that the source maps them to.
-- The audit trail is kept by another crate: here it is the log of the calls.
--
-- Bounds and fuel: the decimal print of a u64 runs on 20 digits of fuel, and a u64 has at most 20.
-- The receipt loop of `run_one` runs on fuel and returns `none` where the fuel is used up;
-- Scheduler/Pass/Loop says which fuel is enough and where none is. All other recursion is structural.
-- The clock of a pass over one scheduler row stands still, and its host ports may answer every call
-- differently. A pass is no transaction: each of its statements commits on its own.
--
-- The batches of the generation walk run on fuel in the same way; Lead/Drain says which is enough. The
-- pass over the queue recurses on the claims that its limit still allows.
-- The expiry of a token is an i64 that the mint adds up without overflow: the clock and the lifetime
-- are far below 2^63. The bytes that base64 encodes are below 256; its u32 wraps as it is written. The
-- event verbs test the CHECKs and the foreign keys of the events table as the database does; its two
-- patterns of a url are a parameter, and a negative seat or slot count, which a CHECK refuses, cannot
-- be written. The rows that the templates copy are taken to keep the CHECKs of their own tables. A
-- refusal of the lead sink longer than the 500 characters of its column makes the park fail; a group
-- key, a uuid or a uuid and a day, is far below the 160 characters of its own.
--
-- Not modelled: tenancy columns and request pools, lost connections, the officer listings and read
-- models, the sale seam's service before its repository, the scheduler's claim of its rows, its sweeps
-- and the template cascade, the ics feed and exports, the HTTP codes of the errors, the generated
-- entities, DTOs, handlers and seeders.
pub mod Base
pub mod Capability
pub mod Store
pub mod Seat
pub mod Seam
pub mod Booths
pub mod Desk
pub mod Event
pub mod Lead
pub mod Intake
pub mod Workflow
pub mod Scheduler
mod Samples
