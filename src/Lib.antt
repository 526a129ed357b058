-- ===== src/Lib.antt =====
-- Verification of the runtime of Plug-and-Play Local RAG: the parts of the API's Python runtime and
-- of the supervisor that carry state or decide, as functions, with theorems about them.
--
-- The parts and their models:
--   * Leases: apps/api/app/runtime/leases.py, `LeaseRegistry`. `claim`, `heartbeat`, `validate` and
--     `release` are the functions of these names from a registry to a result; `run` is a sequence of
--     calls.
--   * Scheduler: apps/api/app/runtime/scheduler.py, `PriorityScheduler`, from which the coordinator
--     takes its work. `enqueue`, `next`, `cancel`, `finish` and `metrics` keep their names; Queue has
--     the heaps, Invariant what ties the state together, Policy what `next` promises.
--   * Gate: apps/api/app/runtime/maintenance_gate.py. Gate has the methods of `MaintenanceGate`,
--     Requests the middleware as steps of interleaved requests, drains and resumes.
--   * Coordinator: apps/api/app/runtime/coordinator.py, `CoordinatorRuntime` over the scheduler: `submit`
--     and `stream` are `register` and `enter`, `_dispatch` is `dispatch`, `_execute` is `start` and
--     `complete`, `cancel` is `cancel_begin` and `cancel_end`. Runs has their interleavings, Progress
--     what is never lost; whether a failure finds room in the queue of its stream is an argument of
--     `complete`, and the callbacks of a task are `call_back`. Closing has `close` before and after
--     its waiting for the tasks. Streaming has the queue of one stream by itself, with the task that
--     puts and the consumer that gets.
--   * Protocol: apps/api/app/runtime/protocol.py, the body middleware, `require_bounded_json` and the
--     requests, with those that the handlers of coordinator.py make of them.
--   * Limits: apps/api/app/runtime/limits.py, `StageLimits`; `acquire` is `enter` and `leave`.
--   * Tokens, Chunking and Units: apps/api/app/services/chunking.py. Tokens has the token pattern and
--     `count_tokens`, Chunking has `_split_oversized`, `_pack`, `_overlap` and `_render`, Units has
--     `_units`. Highlights is `normalize_highlight_text` of
--     apps/api/app/services/highlight_anchors.py, by which units are found on their page.
--   * Library: apps/api/app/services/library.py, `_resolve_views`, `_validate_insertion` and
--     `_validate_move`. Forest has what a resolved library is, Covering that no node is left out.
--   * Prompts: apps/api/app/services/chats.py, `_select_history`, `_source_block`, `_render_prompt` and
--     `_budget_prompt`, which counts tokens with Tokens. Budgets has their limits.
--   * Profiles and Controller: apps/supervisor/controller.py. Profiles has
--     `SignedProfileResolver.resolve`, Controller has `ConfigurationController.apply` with its
--     rollback, over a runtime that is a parameter.
--   * Messages: apps/supervisor/controller.py, `parse` and `encode` of `ControllerRequest`, and `parse`
--     of `RuntimeConfiguration`.
--   * Budget and Services: apps/supervisor/runtime.py, `RestartBudget.record_failure` and
--     `_ordered_services`.
--   * Manifest: apps/supervisor/manifest.py. Fields, Services, Listeners, Dependencies and Contents have
--     `from_dict` and what it calls, Rendering the value of `digest`; Json has the values of JSON. The
--     other modules have proofs: Starting relates the manifest to `_ordered_services`, Contract says
--     what holds of each manifest, Rereading that it is read again from what its digest covers.
--   * Planning: apps/supervisor/planning.py, the dry-run plan of an installation.
--   * Stopping: apps/supervisor/runtime.py, `_stop_cascade` and `_terminate_and_close`, over the Win32
--     adapter as a parameter; Tracking follows each process through them.
--   * Base: the names that all share, dictionaries and sets of strings, and results of calls that
--     may raise. Examples: the theorems and the definitions at concrete inputs.
--
-- How the code is read:
--   * A method is a function of the state; a call that raises is an error, and leaves the state as it
--     was. A method under one lock, or with no await inside, is one step. The readings of a clock are
--     arguments, in ticks.
--   * A `heapq` is the list of its entries in the order in which it pops them; an object that two
--     containers share is found by its number. Dictionaries are association lists. Semaphores and
--     events are their counters and flags.
--   * A text of the chunker is the list of its code points; the Unicode tables behind the token
--     pattern and `str.strip`, and the compatibility form of `unicodedata`, are parameters. A start
--     of a suffix unit stops at 0, where the source would go below it.
--   * The runtime that the controller drives is a record of operations, with that of its reporter, and
--     each may raise. The theorems about it assume that only replacing changes an environment, and
--     only that of its service. The adapter of the processes is such a record too: an exit code means
--     that a process has exited, and it stays so. `terminate_and_close` makes the three passes of the
--     source.
--   * What manifest.py uses of the standard library on texts (the cases of letters, Windows paths, URLs,
--     addresses, SHA-256) is a record of functions. Of an error only the class is kept. A dictionary
--     from JSON has each key once.
--   * Loops are structural, but for four: `split_groups` has the number of matches as fuel, `order`
--     and `peel` the number of services; each of their passes takes at least one of them away. The
--     fuel of `resolve_id` is what its stack leaves of the depth at which the source gives up.
--
-- Not modelled: a consumer that leaves a stream of the coordinator early, the queries of the library,
-- the turns of a chat, retrieval, parsing and OCR, authentication, the database, the storage, the
-- HTTP routes and the web application; of the files above, `chunk` in chunking.py, the anchors in
-- highlight_anchors.py, the start and the supervision of processes in supervisor/runtime.py.
pub mod Base
pub mod Leases
pub mod Scheduler
pub mod Gate
pub mod Coordinator
pub mod Protocol
pub mod Limits
pub mod Tokens
pub mod Highlights
pub mod Chunking
pub mod Units
pub mod Library
pub mod Prompts
pub mod Profiles
pub mod Controller
pub mod Budget
pub mod Services
pub mod Stopping
pub mod Json
pub mod Manifest
pub mod Planning
pub mod Messages
pub mod Examples
