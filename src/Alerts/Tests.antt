-- ===== src/Alerts/Tests.antt =====
-- pocisys-hash-monitor/services/alerts.py: a concrete miner, and the theorems applied to it.
use gauge_umbrel_community.Prelude.{
  ℕ, ◌+◌, ◌≤◌, ◌≡◌, List, refl, true, false, [], ◌∷◌, none, some, arith, length,
}
use gauge_umbrel_community.Health.State.{Severity, Code}
use gauge_umbrel_community.Alerts.State.{
  Kind, AlertSeverity, Alert, AlertConfig, Shares, PoolIdentity, MinerType, MinerStatus, Prior,
  AlertEngine, Times,
}
use gauge_umbrel_community.Alerts.Emit.{
  emit_refuses, emit, put_sent, sent_at, is_key, kind_tag, prune_cooldowns,
}
use gauge_umbrel_community.Alerts.Miner.{evaluate_miner}
use gauge_umbrel_community.Alerts.Snoozed.{IsHeld, evaluate_miner-IsHeld}
use gauge_umbrel_community.Alerts.Bounds.{IsBounded, evaluate_miner-IsBounded}
use gauge_umbrel_community.Alerts.Cooldown.{emit_all, IsCalm, emit_again}

abbrev config : AlertConfig
config = record {
  cooldown = 600000;
  offline_grace = 60000;
  pool_disconnect_grace = 60000;
  send_offline_alerts = true;
  send_recovery_alerts = true;
  send_hashrate_alerts = true;
  send_temperature_alerts = true;
  send_chip_health_alerts = true;
  send_pool_alerts = true;
  send_pool_switch_alerts = true;
  send_share_alerts = true;
  send_block_found_alerts = true;
  send_best_diff_alerts = true;
  verbose_pool_events = false;
}

abbrev no_shares : Shares
no_shares = record { invalid = 0; stale = 0; rejected = 0 }

abbrev pool : PoolIdentity
pool = record { url = some (112 ∷ []); source = none }

-- A hot miner that has found a block.
abbrev miner : MinerStatus
miner = record {
  key = 1;
  device = MinerType.other;
  status = record {
    online = true;
    api_ok = true;
    hashrate = some 110000;
    expected_hashrate = none;
    hardware_error_percent = none;
    hardware_errors = none;
    valid_shares = none;
    temps = some 95000 ∷ [];
    chip_items = [];
    schedule_enabled = false;
    schedule_low = false;
  };
  limits = record { min_hashrate = none; temp_warning = none; temp_critical = some 90000 };
  reasons = record { code = Code.asic_temperature_critical; severity = Severity.unhealthy } ∷ [];
  chips_reported = false;
  recovery_armed = false;
  recovery_pending = false;
  recovery_observing = false;
  pool = pool;
  pool_connected = some true;
  shares = no_shares;
  blocks_found = 1;
  best = none;
}

abbrev prior : Prior
prior = record {
  online = true;
  shares = no_shares;
  pool_identity = pool;
  blocks_found = 0;
  offline_since = none;
  offline_alerted = false;
  pool_connected = some true;
  pool_disconnected_since = none;
  pool_disconnect_alerted = false;
  chip_health_degraded = false;
}

abbrev engine : AlertEngine
engine = record {
  last_sent = [];
  previous = (λ k. some prior);
  best_diff = (λ k. none);
  alert_feed = [];
  snooze_until = 900000;
  sends = [];
}

abbrev clock : Kind → Times
clock k = record { sent = 1000; snooze = 1000 }

evaluate_miner-IsHeld_example : IsHeld 900000 [] (evaluate_miner config 1000 clock miner engine)
evaluate_miner-IsHeld_example =
    evaluate_miner-IsHeld config 1000 clock miner engine (λ k. omega arith)

evaluate_miner-IsBounded_example : IsBounded (evaluate_miner config 1000 clock miner engine)
evaluate_miner-IsBounded_example =
    evaluate_miner-IsBounded config 1000 clock miner engine (omega arith, omega arith)

abbrev hot_alert : Alert
hot_alert = record {
  owner = 1;
  kind = Kind.temp_critical;
  severity = AlertSeverity.critical;
  force = false;
  bypass_snooze = false;
}

abbrev at_second : ℕ → Times
at_second n = record { sent = 1000 + n; snooze = 1000 + n }

first_emitted : emit_refuses config hot_alert (at_second 0) engine ≡ false
unfolding emit_refuses sent_at
first_emitted = refl

one_key : length (put_sent 1 Kind.temp_critical 1000 []) ≤ 512
unfolding put_sent
one_key = omega arith

-- Another alert in between.
abbrev between : List (Alert × Times)
between = (record hot_alert { kind = Kind.offline }, at_second 2000) ∷ []

between-IsCalm : IsCalm config 1000 between (emit config hot_alert (at_second 0) engine).1
unfolding emit put_sent sent_at prune_cooldowns is_key kind_tag
between-IsCalm = (omega arith, omega arith, tt)

emit_again_example :
    let s = emit_all config between (emit config hot_alert (at_second 0) engine).1 in
    emit config hot_alert (at_second 5000) s ≡ (false, s)
emit_again_example =
    emit_again config hot_alert hot_alert (at_second 0) (at_second 5000) between engine
      first_emitted refl refl refl one_key between-IsCalm (omega arith)
