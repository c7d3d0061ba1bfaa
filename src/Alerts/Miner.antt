-- ===== src/Alerts/Miner.antt =====
-- pocisys-hash-monitor/services/alerts.py: `evaluate_miner`, `pool_event` and `reconfigure`.
use gauge_umbrel_community.Prelude.{
  ℕ, Bool, true, false, ◌&&◌, ◌||◌, Option, none, some, if◌then◌else◌, put,
}
use gauge_umbrel_community.Alerts.State.{
  Kind, AlertSeverity, AlertConfig, MinerStatus, Prior, AlertEngine, Times,
}
use gauge_umbrel_community.Alerts.Emit.{emit_if, prune_cooldowns}
use gauge_umbrel_community.Alerts.Conditions.{
  alert, is_online, offline_since, was_offline_alerted, is_over_grace, has_recovered, chip_state,
  next_degraded, ChipHealth,
}
use gauge_umbrel_community.Alerts.Evaluate.{
  PoolLink, check_pool, tell, check_hashrate, check_temperature, check_chips, check_switch,
  check_shares, check_blocks, check_best,
}

abbrev pub put_prior : ℕ → Prior → AlertEngine → AlertEngine
put_prior key p e = record e { previous = put key p e.previous }

-- What `previous` keeps of a miner that answers.
unfoldable pub online_prior : MinerStatus → Option Prior → PoolLink → Prior
unfolding next_degraded chip_state
online_prior s p l = record {
  online = true;
  shares = s.shares;
  pool_identity = s.pool;
  blocks_found = s.blocks_found;
  offline_since = none;
  offline_alerted = false;
  pool_connected = s.pool_connected;
  pool_disconnected_since = l.since;
  pool_disconnect_alerted = l.alerted;
  chip_health_degraded = next_degraded (chip_state s) p;
}

-- What `previous` keeps of a miner that does not answer.
unfoldable pub offline_prior : ℕ → MinerStatus → Option Prior → Bool → Prior
unfolding next_degraded
offline_prior now s p alerted = record {
  online = false;
  shares = s.shares;
  pool_identity = s.pool;
  blocks_found = s.blocks_found;
  offline_since = some (offline_since now p);
  offline_alerted = alerted;
  pool_connected = none;
  pool_disconnected_since = none;
  pool_disconnect_alerted = false;
  chip_health_degraded = next_degraded ChipHealth.unknown p;
}

unfoldable pub note_online : MinerStatus → Option Prior → PoolLink × AlertEngine → AlertEngine
unfolding online_prior
note_online s p (l, e) = put_prior s.key (online_prior s p l) e

unfoldable pub note_offline : ℕ → MinerStatus → Option Prior → Bool × AlertEngine → AlertEngine
unfolding offline_prior
note_offline now s p (sent, e) =
    put_prior s.key (offline_prior now s p (was_offline_alerted p || sent)) e

-- The steps after the pool's connection, which leave its link alone.
unfoldable pub check_rest :
    AlertConfig
    → (Kind → Times)
    → MinerStatus
    → Option Prior
    → PoolLink × AlertEngine
    → PoolLink × AlertEngine
check_rest cfg clock s p (l, e) = (
  l,
  check_best cfg clock s s.best
      (check_blocks cfg clock s p (check_shares cfg clock s p (check_switch cfg clock s p e))),
)

unfoldable pub evaluate_online :
    AlertConfig → ℕ → (Kind → Times) → MinerStatus → Option Prior → AlertEngine → AlertEngine
evaluate_online cfg now clock s p e =
    let recovered =
      tell cfg clock s Kind.recovered AlertSeverity.success true (has_recovered cfg s p) e in
    let measured = check_temperature cfg clock s (check_hashrate cfg clock s recovered) in
    let linked =
      check_pool cfg now clock s p s.pool_connected (check_chips cfg clock s p measured) in
    note_online s p (check_rest cfg clock s p linked)

unfoldable pub evaluate_offline :
    AlertConfig → ℕ → (Kind → Times) → MinerStatus → Option Prior → AlertEngine → AlertEngine
unfolding note_offline is_over_grace
evaluate_offline cfg now clock s p e = note_offline now s p (
    emit_if (is_over_grace cfg now s p) cfg (alert s Kind.offline AlertSeverity.critical false)
      (clock Kind.offline) e)

unfoldable pub evaluate_miner :
    AlertConfig → ℕ → (Kind → Times) → MinerStatus → AlertEngine → AlertEngine
unfolding evaluate_online evaluate_offline is_online
evaluate_miner cfg now clock s e =
    let p = e.previous s.key in
    if is_online s
    then evaluate_online cfg now clock s p e
    else evaluate_offline cfg now clock s p e

-- The category of a pool's log line: `other` is any that the code does not name.
pub data Category : Type 0 where
  block rpc security activity other : Category

pub record PoolEvent : Type 0 where
  pub pool : ℕ
  pub category : Category
  pub tag : ℕ
  pub severity : AlertSeverity

unfoldable pub is_critical_event : PoolEvent → Bool
is_critical_event v = elim v.category [
  | Category.block ↦ true
  | Category.rpc ↦ true
  | Category.security ↦ true
  | _ ↦ elim v.severity [ AlertSeverity.critical ↦ true | _ ↦ false ]
]

abbrev pub is_block_event : Category → Bool
is_block_event Category.block = true
is_block_event _ = false

abbrev pub is_activity : Category → Bool
is_activity Category.activity = true
is_activity _ = false

-- `pool_event`; `tag` tells the texts of the category apart in the alert's key.
unfoldable pub pool_event : AlertConfig → Times → PoolEvent → AlertEngine → AlertEngine
unfolding is_critical_event
pool_event cfg t v e =
    (emit_if
      ((is_critical_event v || is_activity v.category && cfg.verbose_pool_events)
        && cfg.send_pool_alerts)
      cfg
      (record {
        owner = v.pool;
        kind = Kind.pool_category v.tag;
        severity = v.severity;
        force = is_block_event v.category;
        bypass_snooze = is_critical_event v;
      })
      t e).1

-- `reconfigure` keeps what belongs to the miners that `valid` names.
unfoldable pub reconfigure_alerts : (ℕ → Bool) → AlertEngine → AlertEngine
reconfigure_alerts valid e = record e {
  previous = (λ k. if valid k then e.previous k else none);
  best_diff = (λ k. if valid k then e.best_diff k else none);
  last_sent = prune_cooldowns e.last_sent;
}
