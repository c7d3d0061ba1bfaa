-- ===== src/Alerts/Conditions.antt =====
-- pocisys-hash-monitor/services/alerts.py: the conditions of `evaluate_miner`. `now` is the time
-- that it reads itself.
use gauge_umbrel_community.Prelude.{
  ℕ, ◌-◌, ◌*◌, Bool, true, false, not, ◌&&◌, ◌||◌, List, [], ◌∷◌, Option, none, some, is_empty, ltb,
  leb, max, if◌then◌else◌, any, get_or,
}
use gauge_umbrel_community.Health.State.{Code, ChipState, ChipItem}
use gauge_umbrel_community.Health.Evaluate.{signalled}
use gauge_umbrel_community.Alerts.State.{
  Kind, AlertSeverity, Alert, AlertConfig, MinerType, MinerStatus, Prior,
}

-- An alert of the miner.
abbrev pub alert : MinerStatus → Kind → AlertSeverity → Bool → Alert
alert s kind severity force = record {
  owner = s.key;
  kind = kind;
  severity = severity;
  force = force;
  bypass_snooze = false;
}

unfoldable pub is_luxos : MinerType → Bool
is_luxos MinerType.luxos = true
is_luxos _ = false

unfoldable pub is_online : MinerStatus → Bool
is_online s = s.status.online && s.status.api_ok

unfoldable pub recovery_managed : MinerStatus → Bool
unfolding is_luxos
recovery_managed s = is_luxos s.device && s.recovery_armed

-- `recovery_noise_suppressed`
unfoldable pub is_quiet : MinerStatus → Bool
unfolding recovery_managed
is_quiet s = recovery_managed s && (s.recovery_pending || s.recovery_observing)

unfoldable pub offline_grace : AlertConfig → MinerType → ℕ
offline_grace cfg MinerType.nerdaxe = max cfg.offline_grace 180000
offline_grace cfg _ = max cfg.offline_grace 0

-- `offline_since` of a miner that does not answer.
unfoldable pub offline_since : ℕ → Option Prior → ℕ
offline_since now none = now
offline_since now (some p) = if p.online then now else get_or now p.offline_since

abbrev pub was_offline_alerted : Option Prior → Bool
was_offline_alerted none = false
was_offline_alerted (some p) = p.offline_alerted

-- Whether a miner that does not answer is over its grace period.
unfoldable pub is_over_grace : AlertConfig → ℕ → MinerStatus → Option Prior → Bool
unfolding offline_since offline_grace
is_over_grace cfg now s p =
    not (ltb (now - offline_since now p) (offline_grace cfg s.device)) && cfg.send_offline_alerts

unfoldable pub has_recovered : AlertConfig → MinerStatus → Option Prior → Bool
unfolding is_quiet
has_recovered cfg s none = false
has_recovered cfg s (some p) =
    not p.online && p.offline_alerted && cfg.send_recovery_alerts && not (is_quiet s)

-- In quarters, as in the health engine; an expectation of 0 counts as none.
unfoldable pub hashrate_is_low : MinerStatus → Bool
unfolding signalled
hashrate_is_low s =
    let threshold : Option ℕ = elim s.limits.min_hashrate [
      | some configured ↦ some (4 * configured)
      | none ↦ elim s.status.expected_hashrate [ some expected ↦ some (3 * expected) | none ↦ none ]
    ] in
    signalled Code.hashrate_below_expected s.reasons && elim s.status.hashrate [
      | some hashrate ↦ elim threshold [
        | some quarters ↦ ltb 0 quarters && ltb (4 * hashrate) quarters
        | none ↦ false
      ]
      | none ↦ false
    ]

unfoldable pub highest_reading : List (Option ℕ) → Option ℕ
highest_reading [] = none
highest_reading (none ∷ ts) = highest_reading ts
highest_reading (some t ∷ ts) =
    let rest = highest_reading ts in some (elim rest [ some u ↦ max t u | none ↦ t ])

-- A limit of 0 counts as none.
unfoldable pub exceeds : Option ℕ → Option ℕ → Bool
exceeds none limit = false
exceeds (some t) none = false
exceeds (some t) (some limit) = ltb 0 limit && leb limit t

unfoldable pub is_critical : MinerStatus → Bool
unfolding signalled highest_reading exceeds
is_critical s =
    signalled Code.asic_temperature_critical s.reasons
    && exceeds (highest_reading s.status.temps) s.limits.temp_critical

unfoldable pub is_warm : MinerStatus → Bool
unfolding signalled highest_reading exceeds is_critical
is_warm s =
    not (is_critical s)
    && signalled Code.asic_temperature_warning s.reasons
    && exceeds (highest_reading s.status.temps) s.limits.temp_warning

unfoldable pub is_chip_code : Code → Bool
is_chip_code (Code.chip_not_responding _) = true
is_chip_code (Code.chip_score_low _) = true
is_chip_code (Code.chip_warning _) = true
is_chip_code _ = false

unfoldable pub is_healthy_chip : Option ChipItem → Bool
is_healthy_chip none = false
is_healthy_chip (some item) = elim item.status [ ChipState.healthy ↦ true | _ ↦ false ]

-- `chip_state`: degraded, healthy or `None`.
pub data ChipHealth : Type 0 where
  degraded healthy unknown : ChipHealth

unfoldable pub chip_state : MinerStatus → ChipHealth
unfolding is_chip_code is_healthy_chip
chip_state s =
    let reported = s.chips_reported && not (is_empty s.status.chip_items) in
    let fault = any (λ r. is_chip_code r.code) s.reasons in
    if reported && fault
    then ChipHealth.degraded
    else if reported && any is_healthy_chip s.status.chip_items
    then ChipHealth.healthy
    else ChipHealth.unknown

abbrev pub was_degraded : Option Prior → Bool
was_degraded none = false
was_degraded (some p) = p.chip_health_degraded

-- `chip_health_degraded`: an unknown state keeps the last known one.
unfoldable pub next_degraded : ChipHealth → Option Prior → Bool
next_degraded ChipHealth.degraded p = true
next_degraded ChipHealth.healthy p = false
next_degraded ChipHealth.unknown p = was_degraded p

unfoldable pub is_degraded_now : ChipHealth → Bool
is_degraded_now ChipHealth.degraded = true
is_degraded_now _ = false

unfoldable pub is_healthy_now : ChipHealth → Bool
is_healthy_now ChipHealth.healthy = true
is_healthy_now _ = false
