-- ===== src/Logs/State.antt =====
-- pocisys-hash-monitor/services/pool_logs.py: what `PoolLogService` reads and keeps. Times are in
-- milliseconds, those of a share that is read in microseconds, and difficulties are natural numbers.
use gauge_umbrel_community.Prelude.{ℕ, Bool, List, Option, Text}
use gauge_umbrel_community.Logs.Dict.{Dict}

-- A value that `_difficulty` is handed: a text, or a value below 0, is `invalid` where it is no
-- difficulty. A text is true for Python even where its number is 0.
pub data RawNumber : Type 0 where
  absent invalid : RawNumber
  number number_text : ℕ → RawNumber

-- An object in a list of shares, an empty text standing for a missing key. `when` is what
-- `_share_time` makes of its times, in microseconds.
pub record RawShare : Type 0 where
  pub difficulty : RawNumber
  pub share_difficulty : RawNumber
  pub diff : RawNumber
  pub when : ℕ
  pub worker : Text
  pub client_name : Text
  pub miner : Text
  pub header_hash : Text
  pub camel_header_hash : Text
  pub id : Text

-- What `_normalize_share` answers. `time_ms` stands for `time`, the text of the time to the
-- millisecond.
pub record Share : Type 0 where
  pub id : Text
  pub time_ms : ℕ
  pub timestamp_ms : ℕ
  pub worker : Text
  pub difficulty : ℕ

pub data PoolMode : Type 0 where
  local_log public_pool_api other_mode : PoolMode

pub record PoolConfig : Type 0 where
  pub key : Text
  pub enabled : Bool
  pub mode : PoolMode
  pub has_url : Bool
  pub bitcoin_address : Text
  pub log_path : Text

-- A block of the pool. `identifier` is the text of its height, session and worker.
pub record Block : Type 0 where
  pub identifier : Text
  pub height : ℕ

-- An event of a pool: a new block, or a line of its log with the place of its rule in `RULES`.
pub data PoolEvent : Type 0 where
  block_found : Text → Text → PoolEvent
  log_line : Text → ℕ → Text → PoolEvent

-- An entry of `latest`. A connection says whether the pool is a Public Pool Port, whether shares are
-- there, and the best difficulty.
pub data Latest : Type 0 where
  missing_url failed : Latest
  connected : Bool → Bool → Option ℕ → Latest

-- The best difficulty and its worker, of each pool.
pub record Bests : Type 0 where
  pub best : Dict ℕ
  pub worker : Dict Text

-- A pool's part of the history file; `none` in a list of shares is no object.
pub record SavedPool : Type 0 where
  pub shares : List (Option RawShare)
  pub all_time_best : RawNumber
  pub all_time_best_worker : Text
  pub reset_after_ms : ℕ

abbrev pub Payload : Type 0
Payload = Dict SavedPool

-- `file` is the history file, where there is one; `notified` is what the alert engine is handed.
pub record LogState : Type 0 where
  pub pools : List PoolConfig
  pub has_path : Bool
  pub file : Option Payload
  pub events : List PoolEvent
  pub notified : List PoolEvent
  pub positions : Dict ℕ
  pub latest : Dict Latest
  pub seen_blocks : Dict (List Text)
  pub share_history : Dict (List Share)
  pub all_time : Bests
  pub session : Bests
  pub reset_after : Dict ℕ
