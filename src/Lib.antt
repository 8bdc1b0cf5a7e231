-- ===== src/Lib.antt =====
-- A model of trainfer, the daemon that serves a language model and trains it between requests.
--
-- The parts, and how they meet. Clients reach the controller (trainfer/controller.py) over HTTP.
-- It cuts a train batch into tasks of the compute queue (trainfer/queue.py), whose single worker
-- runs them in the order of their tokens and moves the commit cursor; a reader waits for a token
-- with `wait_for`. Feedback on an answer is logged, routed to a train batch and submitted in the
-- same way. While the queue is idle, two schedulers submit more: the replay of logged feedback
-- (trainfer/engine/replay.py) and the majority vote over fresh rollouts (trainfer/ttrl_mv.py).
-- Each commit is fanned out to subscribers (trainfer/commit_stream.py), and the text of an
-- answer is split into reasoning and content (trainfer/reasoning.py).
--
-- The files:
--   Prelude, with Prelude/Tests and Prelude/Lists: Boolean tests, the conditional, lists measured by
--     native numbers, and the library names that the other modules share.
--   Errors: trainfer/errors.py, the classes of wire errors with their attributes.
--   Queue: `ComputeQueue` with `submit`, `try_submit`, `is_idle_for`, `start` and the worker's loop,
--     cut at its awaits into `poll`, `get` and `finish`. Queue/Shutdown: `stop`, the parts of
--     `graceful_drain` and `_reap_pending`. Queue/Schedule: executions and `wait_for`.
--     Queue/Drain: `graceful_drain` as a whole. The other files below Queue are proofs: Cursor (the
--     consistency of the state), Order (the line of tasks, and executions in which no submit is
--     overtaken), Jobs and Serial (the handler's effects), Progress, Drain/Closing,
--     Drain/Rounds, Drain/Completion, Addresses, Overtaking.
--   Reasoning: `extract_final`, `feed` and `finalize`; Reasoning/Families: the registry of model
--     families; Reasoning/Split, Reasoning/Streaming and Reasoning/Families/Streams: proofs.
--   CommitStream: `CommitBroadcaster`; Accounts, Cursors, Lookup and Reads: proofs.
--   Controller/Feedback: `feedback_to_batch`, and `submit_feedback` with the record that it logs by
--     `log_feedback` of trainfer/trajectory.py; Controller/Feedback/Replayed: proofs.
--   Controller/Train: `submit_train`; Controller/Train/Chunks and Controller/Train/Commits: proofs.
--   Controller/Generate: `generate` and `stream_generate` after the model, and the event stream of `chat`
--     in trainfer/server.py; Controller/Generate/Stream and Controller/Generate/Answer: proofs.
--   Controller/Responses: `_remember_response`; Controller/Responses/Recent: proofs.
--   Controller/Shutdown: `graceful_shutdown`, the requests for one task and the other calls that it makes
--     the controller refuse; Controller/Shutdown/Down: proofs.
--   Controller/Handler: `_handle_task`, and the queue, the handler and the commit stream together;
--     Controller/Handler/Events and Controller/Handler/Commits: proofs.
--   Controller/Model: what `_handle_task` does to the model, by State, Snapshot and Engine;
--     Controller/Model/Live: proofs.
--   Ttrl: `_majority_from_keys` and `_maybe_run_one`; Vote, Election, Labels and Caps: proofs.
--   Replay: `_pick_record` and `_maybe_replay_one`; Caps: proofs.
--   Trajectory: `append_raw`, `iter_with_offsets` and `tail_structured` of trainfer/trajectory.py on the
--     bytes of the file; Trajectory/Lines and Trajectory/Follow: proofs.
--   Memorize: `iterate_memorize` of trainfer/memorize.py; Memorize/Ends: proofs.
--   ServerErrors: the handlers of trainfer/server_errors.py, with `envelope_payload` and `ERROR_CODES` of
--     trainfer/errors.py; ServerErrors/Sound: proofs.
--   RateLimit: `TokenBucket` and `RateLimiter` of trainfer/server.py; RateLimit/Burst: proofs.
--   State: the layers, the adapter, the merge and the two bindings of the residual of
--     trainfer/state.py; State/Binding and State/Merging: proofs.
--   Snapshot: `save` and `load` of trainfer/snapshot.py on the files of the root; Snapshot/Adapters,
--     Snapshot/Restoring and Snapshot/Sessions: proofs.
--   Engine: `TrainEngine` of trainfer/engine/train.py with its optimizers; Engine/Kwargs: what the
--     objectives are called with; Engine/Losses: the loss of a step; Engine/Steps: `step` and
--     `_step_multi`. Engine/Calls, Engine/Sums and Engine/Recovery: proofs.
--   Objectives/Inputs: the token rows of trainfer/objectives/_utils.py; Boundary and Labels: proofs.
--     Objectives/Unlike: the gate, trigger and padding of trainfer/objectives/unlike.py; Gate: proofs.
--     Objectives/Safety: trainfer/objectives/safety.py; Watched and Alarms: proofs.
--   Metrics: the counters, hooks, gauges and middleware of trainfer/metrics.py; Metrics/Counts: proofs.
--   Verifiers: the registry of trainfer/objectives/verifiers/__init__.py with its plugins; Names, Plugins
--     and Routing: proofs. Verifiers/Comparing and Verifiers/Logical: _logical.py beside it;
--     Comparing/Sets and Logical/Catalogue: proofs.
--   Tests: concrete runs.
--
-- How code and model correspond. The daemon is a single event loop, so an operation of the model
-- is a stretch of code between two awaits, a function from a state to a state, and an execution
-- is a list of such events in any order. A raised exception is a value of `Result`. A token is a
-- natural number, and the queue's `completed` is `_completed_token` + 1, so that its start -1 is
-- 0. Times and uuids are arguments. A text is `String`, or in Reasoning the list of its code
-- points, where Python's `find` and `partition` are written out. An asyncio.Queue is a list with
-- its bound, and a bound of 0 is none; that a woken putter tests `full` again is the documented
-- code of asyncio.
--
-- A queue is safe if it satisfies IsSafe of Queue/Cursor. An execution from a new queue is orderly
-- (Reach of Queue/Order/Runs) if each submit that finds room finds no other waiting in `put`, so that a
-- submit that is woken there finds room as well, the
-- worker is started while it holds no task, and only a closed queue is reaped.
--
-- Bounds and fuel. `cut` has one unit of fuel for each sample, and a chunk takes at least one
-- sample whenever the chunk size is positive, so it always suffices; `read_from` has one for
-- each byte of the file, and each round reads a line of at least one byte. No other function has
-- fuel: the loop of `feed` runs at most once for each mode and is written out as `feed_pending`,
-- `feed_reasoning` and `feed_content`.
--
-- The training side. Torch is the record `Tensors` of State and `Torch` of Engine: its operations are
-- arguments, so what is proved holds for whatever they compute. A dict is the list of its items
-- (Prelude/Dicts). A layer carries its own name, attributes, bound residual and hook, which are in the
-- code the module tree and the dict of hook handles. The lock of the model is not modelled, since the
-- operations of State and Engine run one at a time under it. An objective is a function in the
-- registry that may raise; the moving average that kto keeps is its own.
--
-- What is not modelled: the arithmetic of the losses (trainfer/objectives but for the parts
-- above), generation (trainfer/engine/inference.py), the loading of models and the patch of unsloth in
-- trainfer/state.py, the HTTP server beyond its error handlers, rate limiter and
-- chat stream, the verifiers of mathematics and code,
-- configuration, the logging backends and the console. Arguments stand for the answers of the model, for
-- the verifier registry and the key of a rollout in the majority vote, for the decay and the random draw in
-- the replay, and for the json library in the trajectory log. The weight of a sample is in
-- thousandths, and a chunk size is not negative. The timeout of `wait_for` is left out, and the
-- 0.1 s of the worker's `get` are an event of the schedule.
pub mod Prelude
pub mod Errors
pub mod Queue
pub mod Reasoning
pub mod CommitStream
pub mod Controller
pub mod Ttrl
pub mod Replay
pub mod Trajectory
pub mod Memorize
pub mod RateLimit
pub mod ServerErrors
pub mod Tests
pub mod Verifiers
pub mod State
pub mod Snapshot
pub mod Engine
pub mod Metrics
pub mod Objectives
