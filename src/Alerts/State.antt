-- ===== src/Alerts/State.antt =====
-- pocisys-hash-monitor/services/alerts.py: what `AlertEngine` reads and keeps. Times are in
-- milliseconds. The texts of alerts and the warnings put on the status are left out.
use gauge_umbrel_community.Prelude.{ℕ, Bool, List, Option, Text}
use gauge_umbrel_community.Health.State.{Status, Limits, Reason}

-- What an alert's key says after its owner: one constructor for each `emit` of `evaluate_miner`,
-- and the category of a pool event.
pub data Kind : Type 0 where
  offline recovered hashrate temp_critical temp_warning chip_health chip_health_recovered : Kind
  pool_disconnected pool_reconnected pool_switch shares block_found best : Kind
  pool_category : ℕ → Kind

pub data AlertSeverity : Type 0 where
  warning critical success info : AlertSeverity

-- The arguments of `emit`. `owner` numbers the miners and the pools.
pub record Alert : Type 0 where
  pub owner : ℕ
  pub kind : Kind
  pub severity : AlertSeverity
  pub force : Bool
  pub bypass_snooze : Bool

-- An entry of `last_sent`.
pub record Sent : Type 0 where
  pub owner : ℕ
  pub kind : Kind
  pub at : ℕ

-- An entry of `alert_feed`: an alert, or a change of the snooze.
pub data FeedEntry : Type 0 where
  emitted : Alert → FeedEntry
  snoozed resumed : FeedEntry

-- The settings of `app` and `discord`.
pub record AlertConfig : Type 0 where
  pub cooldown : ℕ
  pub offline_grace : ℕ
  pub pool_disconnect_grace : ℕ
  pub send_offline_alerts : Bool
  pub send_recovery_alerts : Bool
  pub send_hashrate_alerts : Bool
  pub send_temperature_alerts : Bool
  pub send_chip_health_alerts : Bool
  pub send_pool_alerts : Bool
  pub send_pool_switch_alerts : Bool
  pub send_share_alerts : Bool
  pub send_block_found_alerts : Bool
  pub send_best_diff_alerts : Bool
  pub verbose_pool_events : Bool

pub record Shares : Type 0 where
  pub invalid : ℕ
  pub stale : ℕ
  pub rejected : ℕ

pub record PoolIdentity : Type 0 where
  pub url : Option Text
  pub source : Option Text

pub data MinerType : Type 0 where
  nerdaxe luxos other : MinerType

-- The status that the poller hands over. `nerdaxe` is both spellings of that type; `best` is what
-- `_difficulty_number` answers.
pub record MinerStatus : Type 0 where
  pub key : ℕ
  pub device : MinerType
  pub status : Status
  pub limits : Limits
  pub reasons : List Reason
  pub chips_reported : Bool
  pub recovery_armed : Bool
  pub recovery_pending : Bool
  pub recovery_observing : Bool
  pub pool : PoolIdentity
  pub pool_connected : Option Bool
  pub shares : Shares
  pub blocks_found : ℕ
  pub best : Option ℕ

-- An entry of `previous`.
pub record Prior : Type 0 where
  pub online : Bool
  pub shares : Shares
  pub pool_identity : PoolIdentity
  pub blocks_found : ℕ
  pub offline_since : Option ℕ
  pub offline_alerted : Bool
  pub pool_connected : Option Bool
  pub pool_disconnected_since : Option ℕ
  pub pool_disconnect_alerted : Bool
  pub chip_health_degraded : Bool

-- `snooze_until` is 0 where nothing is snoozed. `sends` are the alerts handed to
-- `DiscordWebhook.send`, the latest first.
pub record AlertEngine : Type 0 where
  pub last_sent : List Sent
  pub previous : ℕ → Option Prior
  pub best_diff : ℕ → Option ℕ
  pub alert_feed : List FeedEntry
  pub snooze_until : ℕ
  pub sends : List Alert

-- What `time.monotonic` answers in `emit`, and in the `snooze_status` that it calls.
pub record Times : Type 0 where
  pub sent : ℕ
  pub snooze : ℕ
