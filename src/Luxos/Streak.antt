-- ===== src/Luxos/Streak.antt =====
-- pocisys-hash-monitor/services/luxos_control.py: what `bad_confirmations` counts.
use gauge_umbrel_community.Prelude.{
  ℕ, suc, ◌+◌, ◌≤◌, ◌≡◌, ◌⊎◌, inl, inr, refl, Bool, ◌&&◌, if◌then◌else◌, Option, none, some, List,
  [], ◌∷◌, arith, Bool-cases, get_or,
}
use gauge_umbrel_community.Luxos.State.{
  Miner, Config, Action, Source, BoardStatus, Board, Command, Message, reboot, Service,
  board_restarted,
}
use gauge_umbrel_community.Luxos.Monad.{Result, ok, err}
use gauge_umbrel_community.Luxos.Client.{Client, send_all, session_batch, restart_board}
use gauge_umbrel_community.Luxos.Execute.{
  Clock, check_board, start_board, perform, end_action, execute,
}
use gauge_umbrel_community.Luxos.Execute.Guards.{begun, execute-cases}
use gauge_umbrel_community.Luxos.Ceiling.Actions.{check_board-quiet}
use gauge_umbrel_community.Luxos.Recovery.{
  Recovery, is_degraded, observe_incident, count_bad, may_restart, settle_restart, noted_restart,
  restart_unhealthy, check_board_health, recover_from, recover_board,
}
use gauge_umbrel_community.Luxos.Restarts.{MayRestart, recover_board-Checked}

-- The counter of a board.
abbrev pub count_of : ℕ → ℕ → Service → ℕ
count_of i j s = get_or 0 (s.bad_confirmations i j)

module _ (i j : ℕ) where
  count-send_all :
      (c : Client) (id : ℕ) (xs : List Command) (s : Service)
      → count_of i j (send_all c id xs s).1 ≡ count_of i j s
  unfolding send_all
  count-send_all c id [] s = refl
  count-send_all c id (x ∷ xs) s = elim (Bool-cases (c.accepts x)) [
    | inl ok' ↦ rw ok' (count-send_all c id xs (record s { sent = (id, x) ∷ s.sent }))
    | inr no' ↦ rw no'
  ]

  count-restart_board :
      (c : Client) (id b d : ℕ) (s : Service)
      → count_of i j (restart_board c id b d s).1 ≡ count_of i j s
  unfolding restart_board session_batch
  count-restart_board c id b d s = ground (arith, count-send_all c id (reboot b d ∷ []) s)

  count-start_board :
      (c : Client) (k : Clock) (id b : ℕ) (message : Message) (s : Service)
      → count_of i j (start_board c k id b message s).1 ≤ count_of i j s
  unfolding start_board
  count-start_board c k id b message s = ground (
    arith,
    check_board-quiet c b s,
    count-restart_board c id b 10 s,
    count-restart_board c id b 10 (check_board c b s).1,
  )

  count-end_action :
      (cfg : Config) (id : ℕ) (a : Action) (source : Source) (r : Result Message × Service)
      → count_of i j (end_action cfg id a source r).1 ≡ count_of i j r.1
  unfolding end_action
  count-end_action cfg id a source (ok x, s) = ground arith
  count-end_action cfg id a source (err e, s) = ground arith

  -- A restart does not raise a counter.
  count-execute :
      (cfg : Config) (c : Client) (k : Clock) (id b : ℕ) (source : Source) (s : Service)
      → count_of i j (execute cfg c k id Action.restart_board b source s).1 ≤ count_of i j s
  count-execute cfg c k id b source s =
      elim (execute-cases cfg c k id Action.restart_board b source s) [
        | inl (e, refused) ↦ rw refused (omega arith)
        | inr (m, ran, guards) ↦
            let p = perform cfg c k m Action.restart_board b (begun k id s) in
            rw (ran, count-end_action cfg id Action.restart_board source p)
              (unfold perform in (count-start_board c k m.id b (board_restarted b) (begun k id s)))
      ]

  count-settle_restart :
      (cfg : Config) (now id b : ℕ) (r : Result Message × Service)
      → count_of i j (settle_restart cfg now id b r) ≤ count_of i j r.1
  count-settle_restart cfg now id b (ok x, s) = ground arith
  count-settle_restart cfg now id b (err e, s) = ground arith

  count-noted_restart :
      (cfg : Config) (now : ℕ) (m : Miner) (b : Board) (s : Service)
      → count_of i j (noted_restart cfg now m b s) ≡ count_of i j s
  count-noted_restart cfg now m b s = ground arith

  count-restart_unhealthy :
      (cfg : Config) (v : Recovery) (m : Miner) (b : Board) (s : Service)
      → count_of i j (restart_unhealthy cfg v m b s) ≤ count_of i j s
  unfolding restart_unhealthy
  count-restart_unhealthy cfg v m b s =
      let noted = noted_restart cfg v.now m b s in
      let ran = execute cfg v.client v.clock m.id Action.restart_board b.id Source.recovery noted in
      omega (
        arith,
        count-settle_restart cfg v.now m.id b.id ran,
        count-execute cfg v.client v.clock m.id b.id Source.recovery noted,
        count-noted_restart cfg v.now m b s,
      )

-- Whether a check counts against a board.
abbrev is_bad : Recovery → BoardStatus → Bool
is_bad v status = is_degraded status && v.active

abbrev IsCounted : Recovery → Miner → Board → Service → Service → Type 0
IsCounted v m b s s' =
    count_of m.id b.id s' ≤ (if is_bad v b.status then count_of m.id b.id s + 1 else 0)

observe_incident-IsCounted :
    (cfg : Config) (v : Recovery) (m : Miner) (b : Board) (u : ℕ) (s : Service)
    → IsCounted v m b s (observe_incident cfg v m b u s)
unfolding observe_incident
observe_incident-IsCounted cfg v m b u s = ground arith

count_bad-IsCounted :
    (v : Recovery) (m : Miner) (b : Board) (s : Service) → IsCounted v m b s (count_bad v m b s)
unfolding count_bad
count_bad-IsCounted v m b s = ground arith

check_board_health-IsCounted :
    (cfg : Config) (v : Recovery) (m : Miner) (b : Board) (s : Service)
    → IsCounted v m b s (check_board_health cfg v m b s)
unfolding check_board_health
check_board_health-IsCounted cfg v m b s =
    let counted = count_bad v m b s in
    elim (Bool-cases (may_restart v m b counted)) [
      | inl may ↦ rw may (
          omega (
            arith,
            count-restart_unhealthy m.id b.id cfg v m b counted,
            count_bad-IsCounted v m b s,
          ))
      | inr wait ↦ rw wait (count_bad-IsCounted v m b s)
    ]

recover_from-IsCounted :
    (cfg : Config) (v : Recovery) (m : Miner) (b : Board) (o : Option ℕ) (s : Service)
    → IsCounted v m b s (recover_from cfg v m b o s)
unfolding recover_from
recover_from-IsCounted cfg v m b (some u) s = observe_incident-IsCounted cfg v m b u s
recover_from-IsCounted cfg v m b none s = check_board_health-IsCounted cfg v m b s

-- A check of one board: what it read, and the board's part of the snapshot.
pub record BoardCheck : Type 0 where
  pub read : Recovery
  pub status : BoardStatus
  pub low_chips : ℕ

abbrev pub board_of : ℕ → BoardCheck → Board
board_of j c = record { id = j; status = c.status; low_chips = c.low_chips }

-- The service after checks of a board, the latest first.
unfoldable pub run_board : Config → Miner → ℕ → List BoardCheck → Service → Service
run_board cfg m j [] s = s
run_board cfg m j (c ∷ cs) s = recover_board cfg c.read m (board_of j c) (run_board cfg m j cs s)

-- The number of checks up to the latest that found the board degraded while recovery was active.
unfoldable pub bad_streak : List BoardCheck → ℕ
bad_streak [] = 0
bad_streak (c ∷ cs) = let before = bad_streak cs in if is_bad c.read c.status then suc before else 0

count-run_board :
    (cfg : Config) (m : Miner) (j : ℕ) (cs : List BoardCheck) (s : Service)
    → count_of m.id j s ≡ 0
    → count_of m.id j (run_board cfg m j cs s) ≤ bad_streak cs
unfolding run_board bad_streak recover_board
count-run_board cfg m j [] s h = omega arith
count-run_board cfg m j (c ∷ cs) s h = ground (
  arith,
  count-run_board cfg m j cs s h,
  recover_from-IsCounted cfg c.read m (board_of j c)
      ((run_board cfg m j cs s).recovery_incidents m.id j) (run_board cfg m j cs s),
)

streak_three :
    (m : Miner) (j : ℕ) (c : BoardCheck) (cs : List BoardCheck) (s : Service)
    → MayRestart c.read m (board_of j c) s
    → count_of m.id j s ≤ bad_streak cs
    → 3 ≤ bad_streak (c ∷ cs)
unfolding bad_streak
streak_three m j c cs s may h = ground (arith, may.active, may.degraded, may.confirmed)

-- From a service that has counted nothing against a board, after any checks of the board, a further
-- check restarts it, and then it is the third check in a row at least that found the board degraded
-- while recovery was active, no incident is open, the service has been up for five minutes, the
-- board's observation period is over and its last attempt lies six hours back; or the check sends
-- nothing and leaves the noted attempts alone.
pub restart_needs_three :
    (cfg : Config) (m : Miner) (j : ℕ) (c : BoardCheck) (cs : List BoardCheck) (s : Service)
    → count_of m.id j s ≡ 0
    → let t = run_board cfg m j cs s in
      let t' = run_board cfg m j (c ∷ cs) s in
      ((3 ≤ bad_streak (c ∷ cs)) × MayRestart c.read m (board_of j c) t)
      ⊎ ((t'.sent ≡ t.sent) × (t'.last_auto_attempt ≡ t.last_auto_attempt))
unfolding run_board
restart_needs_three cfg m j c cs s h =
    let t = run_board cfg m j cs s in
    elim (recover_board-Checked cfg c.read m (board_of j c) t) [
      | inl (may, e) ↦ inl (streak_three m j c cs t may (count-run_board cfg m j cs s h), may)
      | inr quiet ↦ inr quiet
    ]
