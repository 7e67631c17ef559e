-- ===== src/Lib.antt =====
-- KACE builds and deploys Klipper configurations and firmware. This library models the code that
-- changes a printer's configuration files, the relay control, the resolution and promotion of
-- boards, the physical deployment to an SD card, the Robin encoding and the gate of the firmware
-- deployment, and states what they promise.
--
-- The program. A wizard collects the hardware, core/generator.py renders a configuration, and
-- core/managed_config.py merges it with the files on the printer into a plan.
-- `ConfigDeploymentTransaction` of core/config_transaction.py carries the plan out over one of
-- several transports: it reads the live files, has the plan reviewed, takes a snapshot
-- (core/snapshot.py), uploads every changed file under a condition on its content, verifies the
-- upload, restarts Klipper and waits for it, and rolls back where that fails. Beside it,
-- core/power_controller.py switches the printer's relay, and firmware/boards/ resolves the selected
-- board, variant and build target for a firmware build from exact names. A built firmware goes to
-- the board by a plan (firmware/boards/deployment.py) that firmware/boards/executor.py carries out:
-- it copies the file to a removable medium, waits at a gate for the user's power cycle, and asks
-- Klipper for the fingerprint; its proof is what a promotion of the board's status rests on.
--
-- The files.
--   Prelude           shared names, tests into Bool, texts, bytes, lists, dictionaries
--   Effects           exceptions, results, and code with a mutable state: `Exec S A`
--   Effects.Triples   pre- and postconditions, with the rules of each construct
--   Effects.Keeping   code that keeps a predicate on the state, however it ends
--   Effects.Ending    what holds when code returns
--   Effects.Settled   code that neither reads nor writes the state
--   ManagedConfig     the data of core/managed_config.py: names, planned files, the plan
--   Snapshot          core/snapshot.py: `create_snapshot`, `rollback_file_owned`,
--                     `verify_snapshot_restored`; Restored and RoundTrip have its theorems
--   Transaction       core/config_transaction.py, by the parts of the class:
--     Interface       the transport, the planner, the settings, the object's fields, the results
--     Reading         `read_config_state`, `require_conditional_writes`, `revalidate_config_state`
--     Waiting         `_wait_ready`, `_wait_moonraker`
--     Ordering        `_ordered_artifacts`
--     Recovery        `_verify_plan`, `_record_possible_write`, `_rollback`
--     Publishing      the upload, the activation and the failure handler of `_run_locked`
--     Run             the rest of `_run_locked`, and `run`
--     Quiet           what the calls that neither upload nor restart do to the world
--     Guarantees      the promises of the transaction to its caller
--   Power             core/power_controller.py: the relay, switched and confirmed over Moonraker
--   Boards            firmware/boards/catalog.py and firmware/boards/resolver.py: the index of exact
--                     board names, the resolution, the comparison with the legacy choice;
--                     Promotion models firmware/boards/promotion.py
--   Contract          firmware/boards/deployment.py: the plan of one deployment; Validation has
--                     `validate_deployment_plan`, Preparation `create_deployment_plan`; Validated
--                     and Accepted have the theorems
--   Executor          firmware/boards/executor.py, by its parts:
--     Session         the states, the media, the evidence, the session and its proof
--     Steps           the ports, `_ALLOWED_TRANSITIONS`, `_emit`, `_transition`, `_fail`
--     Checks          `_validate_plan`, `_verify_artifacts`, `_select_media`, `_verify_media`
--     Media           `prepare_media`
--     Gate            `record_power_observation`, `cancel_at_manual_gate`,
--                     `confirm_manual_power_cycle`
--     Linux           the adapters: lsblk's removable media, the ejector, the writer
--     Verifier        the wait for the firmware that Klipper reports; Verifier/Deadline its end
--     Rules, Steady   rules for conditions on the session and on the world
--     History, Recorded, Calls, Selected, Listed, Quiet, Guarded, Ready, Verified, Ended   theorems
--   Monitor           core/mcu_monitor.py: `McuIdentity` and `assess_mcu_identity`
--   Robin             firmware/robin.py: the encoding of an image for a Robin bootloader
--   Deployment        firmware/deployment/models.py and the execution in service.py there
--   Tests             a printer in memory, and the theorems applied to runs of the code on it
--
-- State and operations. A method is a function of the object (`Tx`: the assigned fields and the
-- world behind the transport) to a result and the object after it; an exception is a value that
-- `attempt` catches where the source has `except`. `finally`-like releases act on both ends.
-- An interrupt arrives in a call. `run` holds two locks: the process's (`acquire`, `release` of the
-- environment) and the transport's own (`enter`, `leave`).
-- Contents are `none` for a confirmed absence and bytes otherwise; a dict is an association list
-- with its insertion order. Where the source iterates over the set of the written names, the model
-- uses the order of the writes.
--
-- The executor's session is the first field of its `Stage`, and its adapters are the ports: calls
-- that may do anything to the world and leave the session alone. The `proof` that an error carries
-- is the stage's `attached`.
--
-- Bounds and fuel. The polling loops run on `timeout + 1` rounds: each round that goes on sleeps
-- for at least one unit of the clock. The include scan runs on fuel for 8 MiB of scanned bytes
-- and the pending files. Times are natural numbers of milliseconds. Theorems of termination
-- show that neither fuel runs out; `unfinished` is the model's mark of a loop that did.
--
-- Not modelled. The transports' network and disk access, the planner that edits configuration
-- texts, the review's checks, the snapshot directory's file operations, Moonraker's power calls,
-- the executor's processes and files, digests, `pathlib` and the Unicode tables are parameters; the
-- generator, the wizard, the firmware build and the user interface are not covered.
pub mod Prelude
pub mod Effects
pub mod ManagedConfig
pub mod Snapshot
pub mod Transaction
pub mod Power
pub mod Boards
pub mod Robin
pub mod Contract
pub mod Executor
pub mod Monitor
pub mod Deployment
pub mod Tests
