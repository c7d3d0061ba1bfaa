-- ===== src/Alerts/Evaluate.antt =====
-- pocisys-hash-monitor/services/alerts.py: the steps of `evaluate_miner` that call `emit`.
-- `clock` is what each `emit` of `evaluate_miner` reads.
use gauge_umbrel_community.Prelude.{
  ℕ, ◌+◌, ◌-◌, Bool, true, false, not, ◌&&◌, ◌||◌, Option, none, some, Text, text_eq, is_empty, ltb,
  max, if◌then◌else◌, put, get_or,
}
use gauge_umbrel_community.Alerts.State.{
  Kind, AlertSeverity, Alert, AlertConfig, Shares, PoolIdentity, MinerStatus, Prior, AlertEngine,
  Times,
}
use gauge_umbrel_community.Alerts.Emit.{emit_if}
use gauge_umbrel_community.Alerts.Conditions.{
  alert, is_luxos, recovery_managed, is_quiet, hashrate_is_low, is_critical, is_warm, chip_state,
  was_degraded, is_degraded_now, is_healthy_now,
}

unfoldable pub text_option_eq : Option Text → Option Text → Bool
text_option_eq none none = true
text_option_eq none (some _) = false
text_option_eq (some _) none = false
text_option_eq (some s) (some t) = text_eq s t

unfoldable pub pool_eq : PoolIdentity → PoolIdentity → Bool
unfolding text_option_eq
pool_eq p q = text_option_eq p.url q.url && text_option_eq p.source q.source

unfoldable pub pool_changed : MinerStatus → Option Prior → Bool
unfolding pool_eq
pool_changed s none = false
pool_changed s (some p) = not (pool_eq s.pool p.pool_identity)

unfoldable pub is_named : Option Text → Bool
is_named none = false
is_named (some url) = not (is_empty url)

unfoldable pub pool_switched : MinerStatus → Option Prior → Bool
unfolding pool_eq is_named
pool_switched s none = false
pool_switched s (some p) =
    is_named p.pool_identity.url && is_named s.pool.url && not (pool_eq s.pool p.pool_identity)

unfoldable pub share_increase : Shares → Shares → ℕ
share_increase new old =
    (new.invalid - old.invalid) + (new.stale - old.stale) + (new.rejected - old.rejected)

unfoldable pub has_bad_shares : MinerStatus → Option Prior → Bool
unfolding share_increase
has_bad_shares s none = false
has_bad_shares s (some p) = ltb 0 (share_increase s.shares p.shares)

unfoldable pub has_found_block : MinerStatus → Option Prior → Bool
has_found_block s none = false
has_found_block s (some p) = ltb p.blocks_found s.blocks_found

-- The local variables `pool_disconnected_since` and `pool_disconnect_alerted`.
pub record PoolLink : Type 0 where
  pub since : Option ℕ
  pub alerted : Bool

unfoldable pub prior_link : Option Prior → PoolLink
prior_link none = record { since = none; alerted = false }
prior_link (some p) = record {
  since = p.pool_disconnected_since;
  alerted = p.pool_disconnect_alerted;
}

-- The link of a pool that is not connected.
unfoldable pub broken_link : ℕ → MinerStatus → Option Prior → PoolLink
unfolding prior_link pool_changed
broken_link now s p =
    if pool_changed s p
    then record { since = some now; alerted = false }
    else record { since = some (get_or now (prior_link p).since); alerted = (prior_link p).alerted }

unfoldable pub is_pool_overdue : AlertConfig → ℕ → MinerStatus → PoolLink → Bool
is_pool_overdue cfg now s l =
    not (ltb (now - get_or now l.since) cfg.pool_disconnect_grace)
    && cfg.send_pool_alerts
    && not (is_quiet s)
    && not l.alerted

unfoldable pub after_alert : PoolLink → Bool × AlertEngine → PoolLink × AlertEngine
after_alert l (sent, e) = (record l { alerted = l.alerted || sent }, e)

unfoldable pub check_pool :
    AlertConfig
    → ℕ
    → (Kind → Times)
    → MinerStatus
    → Option Prior
    → Option Bool
    → AlertEngine
    → PoolLink × AlertEngine
unfolding broken_link is_pool_overdue after_alert prior_link
check_pool cfg now clock s p none e = (prior_link p, e)
check_pool cfg now clock s p (some false) e = after_alert (broken_link now s p) (
    emit_if (is_pool_overdue cfg now s (broken_link now s p)) cfg
      (alert s Kind.pool_disconnected AlertSeverity.critical false) (clock Kind.pool_disconnected)
      e)
check_pool cfg now clock s p (some true) e = (
  record { since = none; alerted = false },
  (emit_if ((prior_link p).alerted && cfg.send_recovery_alerts && not (is_quiet s)) cfg
      (alert s Kind.pool_reconnected AlertSeverity.success true) (clock Kind.pool_reconnected) e).1,
)

-- One `emit` of `evaluate_miner` whose answer is not used.
unfoldable pub tell :
    AlertConfig
    → (Kind → Times)
    → MinerStatus
    → Kind
    → AlertSeverity
    → Bool
    → Bool
    → AlertEngine
    → AlertEngine
tell cfg clock s kind severity force condition e =
    (emit_if condition cfg (alert s kind severity force) (clock kind) e).1

unfoldable pub check_hashrate :
    AlertConfig → (Kind → Times) → MinerStatus → AlertEngine → AlertEngine
unfolding tell
check_hashrate cfg clock s e =
    tell cfg clock s Kind.hashrate AlertSeverity.warning false
      (hashrate_is_low s && cfg.send_hashrate_alerts && not (is_quiet s)) e

unfoldable pub check_temperature :
    AlertConfig → (Kind → Times) → MinerStatus → AlertEngine → AlertEngine
unfolding tell
check_temperature cfg clock s e =
    tell cfg clock s Kind.temp_warning AlertSeverity.warning false
      (is_warm s && cfg.send_temperature_alerts)
      (tell cfg clock s Kind.temp_critical AlertSeverity.critical false
        (is_critical s && cfg.send_temperature_alerts) e)

unfoldable pub check_chips :
    AlertConfig → (Kind → Times) → MinerStatus → Option Prior → AlertEngine → AlertEngine
unfolding tell
check_chips cfg clock s p e =
    tell cfg clock s Kind.chip_health_recovered AlertSeverity.success true
      (is_luxos s.device
        && is_healthy_now (chip_state s)
        && was_degraded p
        && not (recovery_managed s)
        && cfg.send_chip_health_alerts
        && cfg.send_recovery_alerts)
      (tell cfg clock s Kind.chip_health AlertSeverity.warning true
        (is_luxos s.device
          && is_degraded_now (chip_state s)
          && not (was_degraded p)
          && not (recovery_managed s)
          && cfg.send_chip_health_alerts)
        e)

unfoldable pub check_switch :
    AlertConfig → (Kind → Times) → MinerStatus → Option Prior → AlertEngine → AlertEngine
unfolding tell pool_switched
check_switch cfg clock s p e =
    tell cfg clock s Kind.pool_switch AlertSeverity.warning true
      (pool_switched s p && cfg.send_pool_switch_alerts && not (is_quiet s)) e

unfoldable pub check_shares :
    AlertConfig → (Kind → Times) → MinerStatus → Option Prior → AlertEngine → AlertEngine
unfolding tell has_bad_shares
check_shares cfg clock s p e =
    tell cfg clock s Kind.shares AlertSeverity.warning false
      (has_bad_shares s p && cfg.send_share_alerts && not (is_quiet s)) e

-- The one alert of a miner that a snooze does not hold back.
abbrev pub block_alert : MinerStatus → Alert
block_alert s = record {
  owner = s.key;
  kind = Kind.block_found;
  severity = AlertSeverity.critical;
  force = true;
  bypass_snooze = true;
}

unfoldable pub check_blocks :
    AlertConfig → (Kind → Times) → MinerStatus → Option Prior → AlertEngine → AlertEngine
unfolding has_found_block
check_blocks cfg clock s p e =
    (emit_if (has_found_block s p && cfg.send_block_found_alerts) cfg (block_alert s)
      (clock Kind.block_found) e).1

unfoldable pub check_best :
    AlertConfig → (Kind → Times) → MinerStatus → Option ℕ → AlertEngine → AlertEngine
unfolding tell
check_best cfg clock s none e = e
check_best cfg clock s (some best) e =
    let old = e.best_diff s.key in
    let told =
      tell cfg clock s Kind.best AlertSeverity.info true
        (elim old [ some b ↦ ltb b best && cfg.send_best_diff_alerts | none ↦ false ]) e in
    record told { best_diff = put s.key (max best (get_or 0 old)) told.best_diff }
