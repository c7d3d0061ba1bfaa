-- ===== src/Luxos/Restarts.antt =====
-- pocisys-hash-monitor/services/luxos_control.py: when automatic recovery restarts a hashboard.
use gauge_umbrel_community.Prelude.{
  ℕ, ◌+◌, ◌≤◌, ◌≡◌, ◌⊎◌, inl, inr, refl, true, false, Option, none, some, arith, Bool-cases, get_or,
}
use gauge_umbrel_community.Luxos.State.{Miner, Config, Board, Service}
use gauge_umbrel_community.Luxos.Recovery.{
  Recovery, is_degraded, observe_incident, count_bad, is_cooling, may_restart, restart_unhealthy,
  check_board_health, recover_from, recover_board,
}

-- Why a board is restarted: recovery is active, no incident is open, the board is degraded for the
-- third time in a row at least, the service has warmed up for five minutes, the board's observation
-- period is over, and six hours have passed since its last attempt.
pub record MayRestart (v : Recovery) (m : Miner) (b : Board) (s : Service) : Type 0 where
  pub active : v.active ≡ true
  pub closed : s.recovery_incidents m.id b.id ≡ none
  pub degraded : is_degraded b.status ≡ true
  pub confirmed : 2 ≤ get_or 0 (s.bad_confirmations m.id b.id)
  pub warm : s.started_at + 300000 ≤ v.warm_clock
  pub observed : get_or 0 (s.auto_suppress_until m.id b.id) ≤ v.now
  pub rested : is_cooling v.now (s.last_auto_attempt m.id b.id) ≡ false

observe_incident-sent :
    (cfg : Config) (v : Recovery) (m : Miner) (b : Board) (u : ℕ) (s : Service)
    → ((observe_incident cfg v m b u s).sent ≡ s.sent)
      × ((observe_incident cfg v m b u s).last_auto_attempt ≡ s.last_auto_attempt)
unfolding observe_incident
observe_incident-sent cfg v m b u s = ground arith

may_restart-true :
    (v : Recovery) (m : Miner) (b : Board) (s : Service)
    → s.recovery_incidents m.id b.id ≡ none
    → may_restart v m b (count_bad v m b s) ≡ true
    → MayRestart v m b s
unfolding count_bad
may_restart-true v m b s closed h = ground arith

pub count_bad-kept :
    (v : Recovery) (m : Miner) (b : Board) (s : Service)
    → ((count_bad v m b s).sent ≡ s.sent)
      × ((count_bad v m b s).last_auto_attempt ≡ s.last_auto_attempt)
unfolding count_bad
count_bad-kept v m b s = (refl, refl)

-- How a check of a board may end.
abbrev pub Checked : Config → Recovery → Miner → Board → Service → Service → Type 0
Checked cfg v m b s s' =
    (MayRestart v m b s × (s' ≡ restart_unhealthy cfg v m b (count_bad v m b s)))
    ⊎ ((s'.sent ≡ s.sent) × (s'.last_auto_attempt ≡ s.last_auto_attempt))

check_board_health-Checked :
    (cfg : Config) (v : Recovery) (m : Miner) (b : Board) (s : Service)
    → s.recovery_incidents m.id b.id ≡ none
    → Checked cfg v m b s (check_board_health cfg v m b s)
unfolding check_board_health
check_board_health-Checked cfg v m b s closed =
    elim (Bool-cases (may_restart v m b (count_bad v m b s))) [
      | inl may ↦ rw may (inl (may_restart-true v m b s closed may, refl))
      | inr wait ↦ rw wait (inr (count_bad-kept v m b s))
    ]

recover_from-Checked :
    (cfg : Config) (v : Recovery) (m : Miner) (b : Board) (o : Option ℕ) (s : Service)
    → s.recovery_incidents m.id b.id ≡ o
    → Checked cfg v m b s (recover_from cfg v m b o s)
unfolding recover_from
recover_from-Checked cfg v m b (some u) s e = inr (observe_incident-sent cfg v m b u s)
recover_from-Checked cfg v m b none s e = check_board_health-Checked cfg v m b s e

-- A check of a board restarts it, and then recovery is active, no incident is open, the board is
-- degraded for the third time in a row at least, the service has been up for five minutes, the
-- board's observation period is over and its last attempt lies six hours back; or it sends nothing
-- and leaves the noted attempts alone.
pub recover_board-Checked :
    (cfg : Config) (v : Recovery) (m : Miner) (b : Board) (s : Service)
    → Checked cfg v m b s (recover_board cfg v m b s)
unfolding recover_board
recover_board-Checked cfg v m b s =
    recover_from-Checked cfg v m b (s.recovery_incidents m.id b.id) s refl
