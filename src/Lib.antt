-- ===== src/Lib.antt =====
-- A verification library for the PoCiSys Umbrel community store. Its Python programs run beside
-- mining hardware and a GPU server; the library models the parts whose mistakes can damage
-- hardware or mislead their user, and proves what keeps them safe.
--
-- The parts modelled, each in the module of its name:
--
-- * Fan (pocisys-gpu-runtime/fan_controller.py): Fan.Curve is `temperature_duty`; Fan.Reader is
--   `NvidiaSmiReader`; Fan.State holds the fields of `FanController` and what it reads; Fan.Manual
--   is `_gpu_is_stable`, `_consume_command`, `_finish_manual` and `_update_manual_observations`;
--   Fan.Select is `_select_duty`; Fan.Tick is `set_speed`, `tick`, `force_100` and the rounds of
--   `run`. The other modules of Fan hold proofs: Invariant, Safety and Failsafe (when a duty below
--   100 percent is possible), Selected (which GPU a sample is of), Device (what the hub has been
--   told), Resync (what the heartbeat mends), Hold (the busy minute), Automatic (how automatic
--   control is switched on), Policy (stalls and repeated calibrations), Tests.
-- * Luxos (pocisys-hash-monitor/services/luxos_control.py): Luxos.State holds the configuration
--   and the fields of `LuxOSControlService`, with a log of the commands sent; Luxos.Monad is a
--   method call that may raise; Luxos.Client is `LuxOSClient`'s bounded commands; Luxos.Profiles
--   is the profile comparison, `_set_profile` and `_restore_full`; Luxos.Execute is `execute` with
--   its guards, lock and record; Luxos.Schedule is `_low_window` and `_evaluate_schedules`;
--   Luxos.Recovery is `_process_auto_recovery`, `refresh_health` and `reconfigure`. Proofs:
--   Execute.Guards, Sends and Ceiling (what may be sent), Locks (what an action leaves alone),
--   Cooldown, Restarts, Streak (what the confirmations count), Rest, Window, Reconfigure, Tests.
-- * Health (pocisys-hash-monitor/services/health.py): Health.State holds what `HealthEngine` reads
--   and keeps; Health.Signals is `_curtailed` and `_signals`; Health.Evaluate is `evaluate` (the
--   tracker's part is `evaluate_tracker`) and `reconfigure`. Proofs: Streaks (what the counters
--   count), Confirmed (what a change of state needs), Miners (several miners, the transitions),
--   Tests.
-- * Alerts (pocisys-hash-monitor/services/alerts.py): Alerts.State holds what `AlertEngine` reads
--   and keeps, with a log of what Discord is handed; Alerts.Emit is `emit`, `_record`,
--   `_prune_cooldowns` and the snooze; Alerts.Conditions and Alerts.Evaluate are the conditions
--   and the steps of `evaluate_miner`, Alerts.Miner the whole of it, `pool_event` and
--   `reconfigure`. Proofs: Preserved (what every `emit` keeps), Snoozed, Bounds, Cooldown, Tests.
-- * Server (pocisys-gpu-runtime/status_server.py): Server.State holds requests, files and the
--   lock; Server.Settings is the runtime settings; Server.SafeTest is `fan_status`,
--   `wait_for_fan_100` and `run_safe_test`; Server.Handler is `do_POST`. Proofs: Commands (with
--   the fan controller), Safe (the safe test), Stored (the settings file), Tests.
-- * Pool (pocisys-public-pool-port/app): Pool.Bytes is hexadecimal text and little-endian numbers;
--   Pool.Proof is verification.py, over an abstract SHA-256; Pool.Store is store.py, a table to a
--   list; Pool.Monitor is `verify_candidates`, `poll`, `accept_share` and `do_POST` of main.py.
--   Proofs: Target (compact targets), Shares and Newest (the accepted shares), Blocks (candidate
--   blocks), Tests.
-- * Logs (pocisys-hash-monitor/services/pool_logs.py): Logs.Dict is a dictionary; Logs.State holds
--   the fields of `PoolLogService` and what it reads; Logs.Stamp is the milliseconds of a share;
--   Logs.Shares is `_normalize_share` and the order of shares; Logs.History is the history file,
--   `reconfigure` and `clear_share_history`; Logs.Merge is `_merge_shares`; Logs.Blocks and
--   Logs.Poll are `_poll_public_pool`, the former its blocks and events; Logs.Scan is `_scan` and
--   a round of `run`. Proofs: Bests, Kept, Steps and Reached (an invariant of every operation),
--   Saved, Restored and Reloaded (the history file), Reset, Tests.
-- * Config (pocisys-hash-monitor/services/validation.py and config_transfer.py): Config.Values is
--   the values of a form and `clean_host`, `clean_time` and `clean_profile`; Config.Miner is
--   `clean_miner`, its conditions as a list in their order; Config.Transfer is `_clean_items`,
--   with `make_id` of config_store.py over the UUIDs that are drawn. Proofs: Safe (what a cleaned
--   miner can be relied on for), Ids (the identifiers of a restored list), Tests.
--
-- How the parts interact: the status server and the fan controller talk through two files, the
-- command that one writes and the status that the other writes; the hash monitor polls the public
-- pool port over HTTP, whose answer is an argument here; the other programs do not call one
-- another; in the hash monitor the poller hands each status to the health engine and then to the
-- alerts. In Fan a tick takes a sample, consumes a command, connects to the hub, selects a duty
-- and sends it, in this order; in Luxos the schedule, automatic recovery and the user all act
-- through `execute`.
--
-- How values are modelled: times are natural numbers of milliseconds, but for those of the shares
-- that Logs reads, which are microseconds and are turned into milliseconds by doubles
-- (Logs.Stamp); temperatures thousandths of a degree, utilization thousandths of a percent, texts
-- lists of code points. Python's floating-point division in the temperature curve is exact here,
-- and `round` takes ties to the even integer. What the operating system, the hub, nvidia-smi, a
-- miner or a clock answers is an argument: a method that reads a clock several times has an
-- argument for each group of readings. Hashrates and percentages of the hash monitor are
-- thousandths, and their comparisons are exact. Dictionaries are functions, but for `last_sent` of
-- the alerts, which is a list since its size is bounded, and those of Logs, which are lists since
-- a file holds their entries. The exponent of a double is sought downward from 80, which is enough
-- for every time but 0, whose double is 0 anyway. No other definition takes fuel: every loop runs
-- over a list, and the counters are the code's own bounds, of rules and of lines.
--
-- Not modelled: reading and writing files, sockets, subprocesses and JSON parsing; writes to files
-- are assumed to succeed, and `AlertEngine.emit` is assumed not to raise where the control service
-- calls it. The Go, JavaScript and shell code of the repository is not modelled.
pub mod Prelude
pub mod Fan
pub mod Server
pub mod Luxos
pub mod Health
pub mod Alerts
pub mod Logs
pub mod Config
pub mod Pool
