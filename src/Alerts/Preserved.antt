-- ===== src/Alerts/Preserved.antt =====
-- pocisys-hash-monitor/services/alerts.py: what every `emit` keeps, `evaluate_miner` keeps.
use gauge_umbrel_community.Prelude.{
  ℕ, Bool, true, false, Option, none, some, put, Bool-cases, inl, inr,
}
use gauge_umbrel_community.Alerts.State.{
  Kind, AlertSeverity, Alert, AlertConfig, MinerStatus, Prior, AlertEngine, Times,
}
use gauge_umbrel_community.Alerts.Emit.{emit_if}
use gauge_umbrel_community.Alerts.Conditions.{is_online}
use gauge_umbrel_community.Alerts.Evaluate.{
  PoolLink, check_pool, after_alert, tell, check_hashrate, check_temperature, check_chips,
  check_switch, check_shares, check_blocks, check_best,
}
use gauge_umbrel_community.Alerts.Miner.{
  put_prior, note_online, note_offline, check_rest, evaluate_online, evaluate_offline,
  evaluate_miner,
}

module _ (P : AlertEngine → Type 0) (cfg : AlertConfig) (clock : Kind → Times)
    (emits : (c : Bool) (a : Alert) (k : Kind) (e : AlertEngine)
      → P e
      → P (emit_if c cfg a (clock k) e).1)
    (priors : (k : ℕ) (p : Prior) (e : AlertEngine) → P e → P (put_prior k p e))
    (bests : (k b : ℕ) (e : AlertEngine)
      → P e
      → P (record e { best_diff = put k b e.best_diff })) where
  tell_keeps :
      (s : MinerStatus) (k : Kind) (v : AlertSeverity) (f c : Bool) (e : AlertEngine)
      → P e
      → P (tell cfg clock s k v f c e)
  unfolding tell
  tell_keeps s k v f c e h = emits c _ k e h

  check_pool_keeps :
      (now : ℕ) (s : MinerStatus) (p : Option Prior) (c : Option Bool) (e : AlertEngine)
      → P e
      → P (check_pool cfg now clock s p c e).1
  unfolding check_pool after_alert
  check_pool_keeps now s p none e h = h
  check_pool_keeps now s p (some false) e h = emits _ _ Kind.pool_disconnected e h
  check_pool_keeps now s p (some true) e h = emits _ _ Kind.pool_reconnected e h

  check_best_keeps :
      (s : MinerStatus) (b : Option ℕ) (e : AlertEngine) → P e → P (check_best cfg clock s b e)
  unfolding check_best
  check_best_keeps s none e h = h
  check_best_keeps s (some b) e h = bests s.key _ _ (emits _ _ Kind.best e h)

  check_rest_keeps :
      (s : MinerStatus) (p : Option Prior) (x : PoolLink × AlertEngine)
      → P x.1
      → P (check_rest cfg clock s p x).1
  unfolding check_rest check_blocks check_shares check_switch
  check_rest_keeps s p (l, e) h =
      check_best_keeps s s.best _
        (emits _ _ Kind.block_found _ (emits _ _ Kind.shares _ (emits _ _ Kind.pool_switch e h)))

  note_online_keeps :
      (s : MinerStatus) (p : Option Prior) (x : PoolLink × AlertEngine)
      → P x.1
      → P (note_online s p x)
  unfolding note_online
  note_online_keeps s p (l, e) h = priors s.key _ e h

  check_measures_keeps :
      (s : MinerStatus) (p : Option Prior) (e : AlertEngine)
      → P e
      → P (check_chips cfg clock s p (check_temperature cfg clock s (check_hashrate cfg clock s e)))
  unfolding check_hashrate check_temperature check_chips
  check_measures_keeps s p e h = emits _ _ Kind.chip_health_recovered _ (
      emits _ _ Kind.chip_health _ (
        emits _ _ Kind.temp_warning _
          (emits _ _ Kind.temp_critical _ (emits _ _ Kind.hashrate e h))))

  evaluate_online_keeps :
      (now : ℕ) (s : MinerStatus) (p : Option Prior) (e : AlertEngine)
      → P e
      → P (evaluate_online cfg now clock s p e)
  unfolding evaluate_online
  evaluate_online_keeps now s p e h = note_online_keeps s p _ (
      check_rest_keeps s p _ (
        check_pool_keeps now s p s.pool_connected _
          (check_measures_keeps s p _ (tell_keeps s _ _ _ _ e h))))

  pub evaluate_miner_keeps :
      (now : ℕ) (s : MinerStatus) (e : AlertEngine) → P e → P (evaluate_miner cfg now clock s e)
  unfolding evaluate_miner evaluate_offline note_offline
  evaluate_miner_keeps now s e h = elim (Bool-cases (is_online s)) [
    | inl up ↦ rw up (evaluate_online_keeps now s (e.previous s.key) e h)
    | inr down ↦ rw down (priors s.key _ _ (emits _ _ Kind.offline e h))
  ]
