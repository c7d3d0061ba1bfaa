-- ===== src/Fan/Tick.antt =====
-- pocisys-gpu-runtime/fan_controller.py: `OpenLinkHubClient.set_speed`, `tick`, `force_100` and the
-- body of the loop of `run`. What nvidia-smi, the hub and the clocks answer is an input.
use gauge_umbrel_community.Prelude.{
  ℕ, ◌+◌, ◌-◌, Bool, true, false, not, ◌&&◌, ◌||◌, Option, none, some, List, [], ◌∷◌, ◌++◌, Text,
  ltb, leb, ◌==◌, if◌then◌else◌, min, max, length, all, is_empty, is_none,
}
use gauge_umbrel_community.Fan.Curve.{round_ratio}
use gauge_umbrel_community.Fan.State.{
  GpuSample, FanTarget, Settings, rpm_zero, Manual, Reading, Controller, Command, Mode,
  controller_unavailable, rpm_failsafe, command_failed,
}
use gauge_umbrel_community.Fan.Manual.{
  calibration_order, passed, gpu_is_stable, consume_command, update_manual_observations,
}
use gauge_umbrel_community.Fan.Select.{Selection, select, abort_below_full, select_duty}

-- What one tick reads. `discover` is the hub's answer for the configured serial and channel; the
-- three Booleans tell whether `set_speed` returns for the command on connection, for the selected one,
-- and for the one after an exception; an exception leaves open what the hub has done.
pub record TickInput : Type 0 where
  pub now : ℕ
  pub command_clock : ℕ
  pub observe_clock : ℕ
  pub status_clock : ℕ
  pub wall : ℕ
  pub sample : Option GpuSample
  pub command : Command
  pub discover : Text → Option ℕ → Option FanTarget
  pub connect_accepted : Bool
  pub send_accepted : Bool
  pub retry_accepted : Bool

-- A request of `set_speed`: the value that is posted, and whether the call returned, which tells that
-- the hub accepted it.
pub record SpeedCall : Type 0 where
  pub value : ℕ
  pub accepted : Bool

-- `OpenLinkHubClient.set_speed`: the posted value is kept within 40 and 100.
unfoldable pub set_speed : ℕ → Bool → SpeedCall
set_speed duty accepted = record { value = max 40 (min 100 duty); accepted = accepted }

-- `deque(maxlen=15).append`
abbrev pub push_reading : Reading → List Reading → List Reading
push_reading r [] = r ∷ []
push_reading r (x ∷ xs) = if ltb (length xs) 14 then x ∷ (xs ++ r ∷ []) else xs ++ r ∷ []

-- The `try` around `self.gpu.sample()`.
unfoldable pub take_sample : ℕ → Option GpuSample → Controller → Controller
take_sample now none s = s
take_sample now (some g) s =
    let read = record s {
      gpu_temperatures =
          push_reading (record { at = now; temperature = g.temperature }) s.gpu_temperatures;
    } in
    let settings = record s.settings { gpu_uuid = g.uuid } in
    if is_empty s.settings.gpu_uuid
    then record read { settings = settings; saved_settings = settings }
    else read

-- `self.manual["commanded_at"] = now` if a lease of this duty waits for its first command.
abbrev pub mark_commanded : ℕ → ℕ → Option Manual → Option Manual
mark_commanded duty now none = none
mark_commanded duty now (some m) =
    if m.duty == duty && is_none m.commanded_at
    then some (record m { commanded_at = some now })
    else some m

-- The end of the `try` around the hub: the hub is online, and its first serial is kept.
abbrev pub keep_target : FanTarget → Controller → Controller
keep_target t s =
    let settings = record s.settings { fan_serial = t.serial; fan_channel = some t.channel_id } in
    if is_empty s.settings.fan_serial
    then record s { last_hub_online = true; settings = settings; saved_settings = settings }
    else record s { last_hub_online = true }

-- The state after the `try` around the hub, and the requests made. A refused request on connection
-- leaves the target set and the hub offline.
unfoldable pub connect : ℕ → Bool → Option FanTarget → Controller → Controller × List SpeedCall
unfolding set_speed
connect now accepted none s = (record s { last_hub_online = false }, [])
connect now accepted (some t) s =
    let full = record s {
      last_sent_duty = some 100;
      last_sent_at = now;
      manual = mark_commanded 100 now s.manual;
      reconnect_until = now + 10000;
    } in
    if s.last_hub_online
    then (keep_target t s, [])
    else if accepted
    then (keep_target t full, set_speed 100 true ∷ [])
    else (record s { last_hub_online = false }, set_speed 100 false ∷ [])

-- `target.rpm <= 0 and self.last_sent_at and now - self.last_sent_at >= RPM_SETTLE_SECONDS`
abbrev pub has_stalled : ℕ → FanTarget → Controller → Bool
has_stalled now t s =
    not (ltb 0 t.rpm) && not (s.last_sent_at == 0) && leb (s.last_sent_at + 5000) now

-- The selected duty, or full speed where the fan stands still.
unfoldable pub choose_duty : ℕ → ℕ → FanTarget → Option GpuSample → Controller → Selection
choose_duty wall now t sample s =
    let chosen = select_duty wall now sample s in
    if has_stalled now t chosen.state
    then select (abort_below_full wall rpm_zero chosen.state) 100 rpm_failsafe
    else chosen

-- `duty != self.last_sent_duty`
abbrev pub differs : ℕ → Option ℕ → Bool
differs duty none = true
differs duty (some d) = not (duty == d)

-- What the hub part of a tick leaves for the status.
pub record Drive : Type 0 where
  pub state : Controller
  pub duty : ℕ
  pub mode : Mode
  pub command_ok : Bool
  pub calls : List SpeedCall

-- The command, its heartbeat, and full speed after a refusal.
unfoldable pub send_duty : ℕ → Bool → Bool → Selection → Drive
unfolding set_speed
send_duty now accepted retried c =
    let s = c.state in
    if differs c.duty s.last_sent_duty || leb (s.last_sent_at + 30000) now
    then if accepted
      then record {
        state = record s {
          last_sent_duty = some c.duty;
          last_sent_at = now;
          manual = mark_commanded c.duty now s.manual;
        };
        duty = c.duty;
        mode = c.mode;
        command_ok = true;
        calls = set_speed c.duty true ∷ [];
      }
      else record {
        state = if retried then record s { last_sent_duty = some 100; last_sent_at = now } else s;
        duty = 100;
        mode = command_failed;
        command_ok = false;
        calls = set_speed c.duty false ∷ set_speed 100 retried ∷ [];
      }
    else record { state = s; duty = c.duty; mode = c.mode; command_ok = true; calls = [] }

-- The branch `if target is not None`, and the values of a tick without a target.
unfoldable pub drive : TickInput → Option FanTarget → Controller → Drive
drive i none s = record {
  state = s;
  duty = 100;
  mode = controller_unavailable;
  command_ok = false;
  calls = [];
}
drive i (some t) s =
    send_duty i.now i.send_accepted i.retry_accepted (
      choose_duty i.wall i.now t i.sample (update_manual_observations i.observe_clock t i.sample s))

-- The status that is written to the status file, less the copies of inputs and state.
pub record Status : Type 0 where
  pub online : Bool
  pub healthy : Bool
  pub mode : Mode
  pub target_percent : ℕ
  pub reported_rpm : ℕ
  pub automatic_enabled : Bool
  pub busy_hold_remaining : ℕ
  pub gpu_stable : Bool
  pub manual_remaining : ℕ
  pub calibration_complete : Bool

abbrev pub is_target : Option FanTarget → Bool
is_target none = false
is_target (some _) = true

abbrev pub target_rpm : Option FanTarget → ℕ
target_rpm none = 0
target_rpm (some t) = t.rpm

abbrev pub is_sampled : Option GpuSample → Bool
is_sampled none = false
is_sampled (some _) = true

-- Whole seconds, rounded as Python's `round` does, and never below 0.
abbrev pub lease_remaining : ℕ → Option Manual → ℕ
lease_remaining now none = 0
lease_remaining now (some m) = round_ratio (m.expires_at - now) 1000

unfoldable pub make_status : TickInput → Option FanTarget → Drive → Status
make_status i target d = record {
  online = is_target target && d.command_ok;
  healthy = is_target target && d.command_ok && ltb 0 (target_rpm target) && is_sampled i.sample;
  mode = d.mode;
  target_percent = d.duty;
  reported_rpm = target_rpm target;
  automatic_enabled = d.state.settings.automatic_enabled;
  busy_hold_remaining = round_ratio (d.state.busy_until - i.now) 1000;
  gpu_stable = gpu_is_stable i.status_clock d.state;
  manual_remaining = lease_remaining i.now d.state.manual;
  calibration_complete = all (passed d.state.calibration) calibration_order;
}

-- How a tick ends: with the new state, the status and the requests, or by an error of the command.
pub data TickResult : Type 0 where
  ticked : Controller → Status → List SpeedCall → TickResult
  failed : Controller → TickResult

-- The hub part and the status, from the state after the command.
unfoldable pub tick_hub : TickInput → Controller → TickResult
tick_hub i s =
    let target = i.discover s.settings.fan_serial s.settings.fan_channel in
    let (s', calls) = connect i.now i.connect_accepted target s in
    let d = drive i target s' in ticked d.state (make_status i target d) (calls ++ d.calls)

abbrev pub unless_raised : (Controller → TickResult) → Controller × Bool → TickResult
unless_raised next (s, true) = failed s
unless_raised next (s, false) = next s

unfoldable pub tick : TickInput → Controller → TickResult
tick i s =
    unless_raised (tick_hub i)
      (consume_command i.command_clock i.sample i.command (take_sample i.now i.sample s))

-- `force_100`: its result and its request.
unfoldable pub force_100 :
    (Text → Option ℕ → Option FanTarget) → Bool → Settings → Bool × List SpeedCall
unfolding set_speed
force_100 discover accepted settings = elim (discover settings.fan_serial settings.fan_channel) [
  | none ↦ (false, [])
  | some t ↦ (accepted, set_speed 100 accepted ∷ [])
]

-- One round of the loop of `run`: a tick, and full speed after an error of it.
unfoldable pub run_round : TickInput → Controller → Controller × List SpeedCall
run_round i s = elim (tick i s) [
  | ticked s' status calls ↦ (s', calls)
  | failed s' ↦ (s', (force_100 i.discover i.retry_accepted s'.settings).1)
]

-- The statuses that the loop of `run` writes in successive rounds; a round whose tick raises writes
-- none of these.
unfoldable pub run_statuses : List TickInput → Controller → List Status
run_statuses [] s = []
run_statuses (i ∷ is) s = elim (tick i s) [
  | ticked s' st calls ↦ st ∷ run_statuses is s'
  | failed s' ↦ run_statuses is s'
]
