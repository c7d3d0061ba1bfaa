-- ===== src/Luxos/Execute.antt =====
-- pocisys-hash-monitor/services/luxos_control.py, `execute`: its guards, its lock, its actions and
-- the record of what came of it.
pub mod Guards
use gauge_umbrel_community.Prelude.{
  ℕ, ◌+◌, Bool, true, false, not, ◌&&◌, ◌||◌, Option, none, some, List, [], ◌∷◌, Text, ltb, leb,
  ◌==◌, if◌then◌else◌, take, put, put_pair,
}
use gauge_umbrel_community.Luxos.State.{
  LowMode, Target, Miner, Config, Action, Source, ControlError, Message, board_restarted,
  board_stopped, board_started, slept, Event, Alert, Service,
}
use gauge_umbrel_community.Luxos.Monad.{
  Result, ok, err, Method, pure, raise, or_raise, ◌>>=◌, ◌>>◌, raise_if, modify,
}
use gauge_umbrel_community.Luxos.Client.{
  Client, board_count, set_boards, restart_board, range_from, max_hashboards,
}
use gauge_umbrel_community.Luxos.Profiles.{find_miner, set_profile, restore_full}

-- The clock that `execute` reads: at its guards, once it holds the lock, and after its requests.
pub record Clock : Type 0 where
  pub now : ℕ
  pub locked_at : ℕ
  pub later : ℕ

-- Whether the miner is armed for this source, and the error if it is not.
abbrev pub is_armed : Source → Miner → Bool
is_armed Source.recovery m = m.auto_recover
is_armed Source.schedule m = m.schedule_enabled
is_armed Source.ceiling m = m.control_enabled
is_armed Source.manual m = m.control_enabled

abbrev pub unarmed : Source → ControlError
unarmed Source.recovery = ControlError.recovery_unarmed
unarmed Source.schedule = ControlError.schedule_unarmed
unarmed Source.ceiling = ControlError.manual_unarmed
unarmed Source.manual = ControlError.manual_unarmed

-- `now - self.last_action_attempt.get(id, -COOLDOWN) < COOLDOWN`
abbrev pub is_too_soon : ℕ → Option ℕ → Bool
is_too_soon now none = false
is_too_soon now (some at) = ltb now (at + 15000)

-- The guards of `execute`, up to the lock, which is then taken and the attempt noted.
unfoldable pub begin_action : Config → Clock → ℕ → Source → Method Miner
unfolding find_miner
begin_action cfg k id source s =
    (do
      m ← or_raise ControlError.not_found (find_miner id cfg.miners)
      raise_if (not cfg.control_enabled) ControlError.control_disabled
      raise_if (not (is_armed source m)) (unarmed source)
      raise_if (is_too_soon k.now (s.last_action_attempt id)) ControlError.too_soon
      raise_if (s.locked id) ControlError.busy
      modify (λ t. record t {
        locked = λ j. if j == id then true else t.locked j;
        last_action_attempt = put id k.locked_at t.last_action_attempt;
      })
      pure m)
      s

-- The checks of a board number, which are the same in three actions.
unfoldable pub check_board : Client → ℕ → Method (Unit {0})
unfolding board_count
check_board c board = do
  raise_if (not (ltb board max_hashboards)) ControlError.invalid_board
  count ← board_count c
  raise_if (leb count board) ControlError.unreported_board

-- The observation period of a board that was started.
abbrev pub suppress_board : ℕ → ℕ → ℕ → Service → Service
suppress_board clock id board s = record s {
  auto_suppress_until = put_pair id board (clock + 600000) s.auto_suppress_until;
  bad_confirmations = put_pair id board 0 s.bad_confirmations;
}

-- A start of one board, with a delay of ten seconds.
unfoldable pub start_board : Client → Clock → ℕ → ℕ → Message → Method Message
unfolding check_board restart_board
start_board c k id board message = do
  check_board c board
  restart_board c id board 10
  modify (suppress_board k.later id board)
  pure message

unfoldable pub stop_board : Client → ℕ → ℕ → Method Message
unfolding check_board restart_board
stop_board c id board = do
  check_board c board
  restart_board c id board 0
  pure (board_stopped board)

-- `action == "low"`
unfoldable pub curtail : Config → Client → Clock → Miner → Method Message
unfolding board_count set_boards set_profile
curtail cfg c k m =
    let by_profile = set_profile cfg c k.later m m.low_profile Target.low in
    let by_boards : Method Message = (do
      count ← board_count c
      set_boards c m.id (range_from 0 count) 0
      pure (slept count)) in
    elim m.low_mode [ LowMode.boards_off ↦ by_boards | _ ↦ by_profile ]

-- The branches on `action`.
unfoldable pub perform : Config → Client → Clock → Miner → Action → ℕ → Method Message
unfolding start_board stop_board curtail restore_full
perform cfg c k m Action.restart_board board = start_board c k m.id board (board_restarted board)
perform cfg c k m Action.board_off board = stop_board c m.id board
perform cfg c k m Action.board_on board = start_board c k m.id board (board_started board)
perform cfg c k m Action.low board = curtail cfg c k m
perform cfg c k m Action.full board = restore_full cfg c k.later m
perform cfg c k m Action.unsupported board = raise ControlError.unsupported_action

abbrev pub is_recovery : Source → Bool
is_recovery Source.recovery = true
is_recovery _ = false

-- `_record_action`: the bounded feed, and the alert of every source but automatic recovery.
unfoldable pub record_action : Config → ℕ → Action → Bool → Source → Service → Service
record_action cfg id action success source s =
    let event : Event = record {
      miner_id = id;
      action = action;
      success = success;
      source = source;
    } in
    let fed = record s { recent_actions = take 25 (event ∷ s.recent_actions) } in
    if not (is_recovery source) && cfg.control_alerts
    then record fed { alerts = Alert.control id action success ∷ s.alerts }
    else fed

-- The end of `execute`: the outcome is recorded, and the lock released.
unfoldable pub end_action :
    Config → ℕ → Action → Source → Result Message × Service → Result Message × Service
unfolding record_action
end_action cfg id action source (ok message, s) = (
  ok message,
  record (record_action cfg id action true source s) {
    locked = λ j. if j == id then false else s.locked j;
  },
)
end_action cfg id action source (err e, s) = (
  err e,
  record (record_action cfg id action false source s) {
    locked = λ j. if j == id then false else s.locked j;
  },
)

-- What follows the guards.
unfoldable pub run_locked :
    Config
    → Client
    → Clock
    → ℕ
    → Action
    → ℕ
    → Source
    → Result Miner × Service
    → Result Message × Service
run_locked cfg c k id action board source (err e, s) = (err e, s)
run_locked cfg c k id action board source (ok m, s) =
    end_action cfg id action source (perform cfg c k m action board s)

unfoldable pub execute : Config → Client → Clock → ℕ → Action → ℕ → Source → Method Message
unfolding run_locked
execute cfg c k id action board source s =
    run_locked cfg c k id action board source (begin_action cfg k id source s)
