-- ===== src/Lib.antt =====
-- Verification of rabbitkit's settlement core: which deliveries its cumulative acknowledgements
-- settle; with selected settlement, the offsets of streams, publish-side flow control, the retries
-- and dead letters of failed deliveries, deduplication, and bulk publishing.
--
-- The program. RabbitMQ acknowledges by delivery tag, and a cumulative ack settles every tag up to
-- its own. `SettlementCoordinator` (src/rabbitkit/core/settlement.py) keeps a ledger of the tags of
-- one channel generation with what is to become of each. Handlers register a tag and decide on it
-- (`mark_success`, `mark_nack`, ...). A flush takes a batch (`prepare`), which walks the ledger in tag
-- order, turns runs of approved tags into cumulative acks and reserves what it covers; `emit_batch`
-- puts the commands on the wire in order and commits, fails or releases each. A reconnect
-- invalidates the ledger and starts a generation. Independently of it, a `RabbitMessage`
-- (src/rabbitkit/core/message.py) settles one delivery by synchronous or asynchronous calls. Around
-- the handler of a delivery stand middlewares: deduplication keeps marks of keys in Redis and in the
-- process; retry classifies a failure, publishes a copy to a delay queue or the dead-letter queue,
-- and settles the source when the publish of the copy is confirmed, or sent without confirms. A bulk
-- publish takes envelopes under bounds on their number and bytes and reports an item for each.
--
-- The files, by the code that they are about:
--   Types        core/types.py: DeliveryState and SettlementAction
--   Coordinator  core/settlement.py: the state of SettlementCoordinator, `register`, `_set_intent` and
--                the `mark_*` calls, `release`, `invalidate`; Coordinator/Views the counts and the
--                frontier. Coordinator/Invariant has the well-formedness of a ledger,
--                Coordinator/Intents sequences of decisions, Coordinator/Frontier the frontier.
--   Plan         `_plan_locked` (Plan/Walk: `walk` is its loop, `Progress` its locals), `prepare`,
--                `commit_command`, `fail_command`, `release_commands`, `plan`; the children are proofs.
--   Emit         `apply_commands`, `emit_batch` and EmissionReport
--   Broker       the channel of an AMQP broker, as an interface with laws, and an instance of it
--   Wire         sets of unacknowledged tags under a sequence of frames, for the proofs
--   System       the coordinator, a flush in progress and the broker as a step relation
--   Message      core/message.py: the settlement of one delivery; Message/Once its interleavings
--   Selected     core/settlement.py: `plan_selected_settlement`, `settle_many_sync`, `settle_many_async`
--                and the report. Selected/Indices, Settled and Calls are proofs.
--   Streams      core/streams.py, StreamOffsetTracker: `track`, `_settled`, `commit` and the watermark.
--                Streams/Events has its runs, the other children are proofs.
--   Backpressure highload/backpressure.py: the token bucket, and FlowController with `acquire` as a
--                state machine. Backpressure/Bounds and Rate are proofs.
--   Failure      core/failure_copy.py (Failure/Headers, Failure/Copy), core/errors.py (Failure/Classify)
--                and core/sanitizer.py (Failure/Sanitizer): what is known of a failure, and its copies.
--   Retry        middleware/retry.py: the count, the decision, the copies (Retry/Copies) and the
--                middleware (Retry/Route); core/retry_handoff.py (Retry/Handoff). Retry/Ladder has the
--                attempts of one message; the other children are proofs. The fuel of `executions`
--                is the number of attempts, which Retry/Ends bounds.
--   Deduplication   middleware/deduplication.py: keys, the local cache, stored results
--                (Deduplication/Stored), one delivery (Deduplication/Scope) and runs of many
--                (Deduplication/Runs); the other children are proofs.
--   Bulk         core/bulk.py, the statuses; Bulk/Preparation is its
--                _validate_header_value and PublishPreparer, Bulk/Run core/bulk_runner.py's
--                `iter_publish_async` and Bulk/Sequence its `iter_publish_sync` under
--                sync/broker.py's `publish_many`; the other children are proofs.
--   DeadLetter   core/dead_letter.py, DeadLetterGuard; DeadLetter/Verified is the proof.
--   Examples, System/Examples   the theorems at concrete ledgers
--   Prelude      tests on numbers, lists, dicts in insertion order, and Python's stable sort
--
-- Conventions. A method is a function from the state to the state, `Coordinator → ... → Coordinator`,
-- with a `Result` where it raises. A dict is a list of pairs, in insertion order, or a function of its
-- keys where no order matters (DeadLetter). Delivery tags are natural numbers; the code refuses a tag
-- below 1 in the same branch. A frame on the wire is a parameter `wire : Frame → W → W × Bool` that
-- says whether the call returned. In System a frame that raised may or may not have arrived, and a
-- flush that a reconnect overtakes goes on, on its old channel: CoalescingAcker
-- (src/rabbitkit/highload/batch.py) is documented to be for one channel, with callables that are bound
-- to it, and CoalescingAckerGroup makes one for each. Texts are lists of code points, and where `int`
-- reads one, only its ASCII digits count. What interleaves is a list of events, or a step relation.
-- Loops go over lists, so that most need no fuel; the attempts of a delivery (Retry/Ends) run on one
-- more than the retries that are left, and the polls of a call of `acquire` (Backpressure/Bounds) on
-- three, which the theorems show to be enough.
--
-- Not modelled: locks and threads (each method holds its lock for its whole body, so that steps are
-- the interleavings, but for `fail_command`, which lets go of it before it invalidates: in System
-- that, and the release of the rest of a batch, are steps of their own), the clock (an argument),
-- logging, the text of exceptions, the transports and the connection handling (the steps `delivers`
-- and `reconnects` stand for them), and the components that the list above does not name.
pub mod Prelude
pub mod Types
pub mod Coordinator
pub mod Plan
pub mod Emit
pub mod Broker
pub mod Wire
pub mod System
pub mod Message
pub mod Selected
pub mod Streams
pub mod Backpressure
pub mod Failure
pub mod Retry
pub mod Deduplication
pub mod Bulk
pub mod DeadLetter
pub mod Examples
