-- ===== src/Server/Handler.antt =====
-- pocisys-gpu-runtime/status_server.py: `Handler.do_POST`.
use gauge_umbrel_community.Prelude.{
  ℕ, ◌*◌, Bool, true, false, not, ◌&&◌, ◌||◌, Option, none, some, is_empty, text_eq, ltb, leb, ◌==◌,
  if◌then◌else◌, any,
}
use gauge_umbrel_community.Fan.State.{Action, missing, present, Command}
use gauge_umbrel_community.Fan.Manual.{calibration_order, is_calibration_duty, before}
use gauge_umbrel_community.Server.State.{
  RuntimeSettings, Number, Payload, not_object, object, FanReport, Route, Request, Env, Server,
  Refusal, Reply,
}
use gauge_umbrel_community.Server.Settings.{
  Validated, valid, invalid, validate_runtime_settings, stored_settings,
}
use gauge_umbrel_community.Server.SafeTest.{write_fan_command, fan_status, run_safe_test}

unfoldable pub is_cross_origin : Request → Bool
is_cross_origin r =
    not (is_empty r.origin) && (is_empty r.host || not (text_eq r.origin_netloc r.host))

-- `/api/settings`
unfoldable pub save_settings : Validated RuntimeSettings → Server → Reply × Server
unfolding stored_settings
save_settings (invalid why) s = (Reply.refused why, s)
save_settings (valid x) s =
    (Reply.settings_saved x, record s { settings_file = some (stored_settings x) })

abbrev pub written : Command × Server → Reply × Server
written (c, s) = (Reply.command_written c, s)

-- The checks of `/api/fan/manual` on its two numbers.
unfoldable pub check_manual : FanReport → ℕ → ℕ → Option Refusal
check_manual fan duty duration =
    if not (is_calibration_duty duty)
    then some Refusal.duty_not_allowed
    else if not (leb 20 duration && leb duration 30)
    then some Refusal.duration_not_allowed
    else if not fan.healthy
    then some Refusal.fan_unhealthy
    else if ltb duty 100 && not fan.gpu_stable
    then some Refusal.gpu_unstable
    else if any (λ prior. not (fan.calibrated_duties prior)) (before duty calibration_order)
    then some Refusal.prior_test_missing
    else none

unfoldable pub request_manual : Env → ℕ → ℕ → Server → Reply × Server
unfolding write_fan_command
request_manual v duty duration s = elim (check_manual (fan_status v.wall v.report) duty duration) [
  | some why ↦ (Reply.refused why, s)
  | none ↦
      written (write_fan_command v Action.manual (present duty) (present (1000 * duration)) false s)
]

-- `int(payload.get(…))` of both numbers, in their order: only `ValueError` is caught.
unfoldable pub read_manual : Env → Number → Number → Server → Reply × Server
read_manual v Number.wrong_type duration s = (Reply.crashed, s)
read_manual v Number.malformed duration s = (Reply.refused Refusal.bad_number, s)
read_manual v (Number.present duty) Number.wrong_type s = (Reply.crashed, s)
read_manual v (Number.present duty) Number.malformed s = (Reply.refused Refusal.bad_number, s)
read_manual v (Number.present duty) (Number.present duration) s = request_manual v duty duration s

-- `/api/fan/manual`
unfoldable pub post_manual : Env → Payload → Server → Reply × Server
post_manual v not_object s = (Reply.refused Refusal.not_an_object, s)
post_manual v (object b) s = read_manual v b.duty b.duration_seconds s

-- `/api/fan/automatic`
unfoldable pub post_automatic : Env → Payload → Server → Reply × Server
unfolding write_fan_command
post_automatic v not_object s = (Reply.refused Refusal.not_an_object, s)
post_automatic v (object b) s =
    if b.enabled && not (fan_status v.wall v.report).calibration_complete
    then (Reply.refused Refusal.calibration_missing, s)
    else written (write_fan_command v Action.automatic missing missing b.enabled s)

-- The branches on the path, once the payload is read.
unfoldable pub dispatch : Env → Route → Payload → Server → Reply × Server
unfolding write_fan_command
dispatch v Route.settings p s = save_settings (validate_runtime_settings p) s
dispatch v Route.fan_manual p s = post_manual v p s
dispatch v Route.fan_automatic p s = post_automatic v p s
dispatch v _ p s = written (write_fan_command v Action.force_100 missing missing false s)

unfoldable pub is_force_100 : Route → Bool
is_force_100 Route.fan_force_100 = true
is_force_100 _ = false

-- Reading the body.
unfoldable pub read_body : Env → Request → Server → Reply × Server
unfolding is_force_100
read_body v r s =
    if is_force_100 r.route && r.content_length == 0
    then dispatch v r.route not_object s
    else if r.content_length == 0 || ltb 4096 r.content_length
    then (Reply.bad_size, s)
    else elim r.payload [ none ↦ (Reply.bad_json, s) | some p ↦ dispatch v r.route p s ]

abbrev pub release : Reply × Server → Reply × Server
release (reply, s) = (reply, record s { test_running = false })

-- `/api/safe-test` under `TEST_LOCK`.
unfoldable pub post_test : Env → Server → Reply × Server
post_test v s =
    if s.test_running
    then (Reply.conflict, s)
    else release (run_safe_test v (record s { test_running = true }))

unfoldable pub route_post : Env → Request → Route → Server → Reply × Server
route_post v r Route.other s = (Reply.not_found, s)
route_post v r Route.safe_test s =
    if is_cross_origin r then (Reply.cross_origin, s) else post_test v s
route_post v r _ s = if is_cross_origin r then (Reply.cross_origin, s) else read_body v r s

unfoldable pub do_post : Env → Request → Server → Reply × Server
unfolding route_post
do_post v r s = route_post v r r.route s
