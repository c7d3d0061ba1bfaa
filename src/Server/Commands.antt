-- ===== src/Server/Commands.antt =====
-- pocisys-gpu-runtime/status_server.py and fan_controller.py: what the server checks before it
-- writes a command, and what the controller does with the command.
use gauge_umbrel_community.Prelude.{
  ℕ, ◌*◌, ◌≤◌, ◌≡◌, ◌⊎◌, refl, true, false, not, Option, none, some, arith, inl, inr, Bool, subst,
  sym, ◌&&◌, ◌||◌, ltb, ◌==◌, if◌then◌else◌, is_empty, text_eq, any, any_ext, ap, Text, ◌∙◌,
}
use gauge_umbrel_community.Fan.State.{GpuSample, Controller, Action, present, Command}
use gauge_umbrel_community.Fan.Manual.{
  passed, gpu_is_stable, calibration_order, before, new_manual, sampled_temperature,
  start_calibration, run_action, consume_command,
}
use gauge_umbrel_community.Server.State.{
  Number, Payload, not_object, object, FanReport, Route, Request, Env, Server, Reply, Refusal,
}
use gauge_umbrel_community.Server.SafeTest.{write_fan_command, is_stale, fan_status}
use gauge_umbrel_community.Server.Handler.{
  written, check_manual, request_manual, read_manual, post_manual, dispatch, read_body, do_post,
  route_post, is_force_100, is_cross_origin,
}

-- The command of a fan test, with the checks that it has passed.
abbrev pub IsAccepted : Env → Command → Type 0
IsAccepted v c =
    (duty : ℕ) × (duration : ℕ) × (check_manual (fan_status v.wall v.report) duty duration ≡ none)
    × (c ≡ record {
      id = v.uuid;
      action = Action.manual;
      duty = present duty;
      duration = present (1000 * duration);
      enabled = false;
    })

request_manual-IsAccepted :
    (v : Env) (duty duration : ℕ) (s : Server) (c : Command)
    → (request_manual v duty duration s).0 ≡ Reply.command_written c
    → IsAccepted v c
unfolding request_manual write_fan_command
request_manual-IsAccepted v duty duration s c h = (duty, duration, ground arith, ground arith)

read_manual-IsAccepted :
    (v : Env) (d t : Number) (s : Server) (c : Command)
    → (read_manual v d t s).0 ≡ Reply.command_written c
    → IsAccepted v c
unfolding read_manual
read_manual-IsAccepted v Number.wrong_type t s c h = absurd (ground arith)
read_manual-IsAccepted v Number.malformed t s c h = absurd (ground arith)
read_manual-IsAccepted v (Number.present d) Number.wrong_type s c h = absurd (ground arith)
read_manual-IsAccepted v (Number.present d) Number.malformed s c h = absurd (ground arith)
read_manual-IsAccepted v (Number.present d) (Number.present t) s c h =
    request_manual-IsAccepted v d t s c h

post_manual-IsAccepted :
    (v : Env) (p : Payload) (s : Server) (c : Command)
    → (post_manual v p s).0 ≡ Reply.command_written c
    → IsAccepted v c
unfolding post_manual
post_manual-IsAccepted v not_object s c h = absurd (ground arith)
post_manual-IsAccepted v (object b) s c h = read_manual-IsAccepted v b.duty b.duration_seconds s c h

read_body-IsAccepted :
    (v : Env) (r : Request) (s : Server) (c : Command) (o : Option Payload)
    → r.route ≡ Route.fan_manual
    → r.payload ≡ o
    → (read_body v r s).0 ≡ Reply.command_written c
    → IsAccepted v c
unfolding read_body dispatch
read_body-IsAccepted v r s c none e q h = absurd (ground arith)
read_body-IsAccepted v r s c (some p) e q h = post_manual-IsAccepted v p s c (ground arith)

do_post-IsAccepted :
    (v : Env) (r : Request) (s : Server) (c : Command)
    → r.route ≡ Route.fan_manual
    → (do_post v r s).0 ≡ Reply.command_written c
    → IsAccepted v c
unfolding do_post
do_post-IsAccepted v r s c e h = read_body-IsAccepted v r s c r.payload e refl (ground arith)

-- The report that the server reads tells what the controller keeps: which calibration steps have
-- passed, and that the GPU is stable.
pub record Reflects (report : FanReport) (clock : ℕ) (f : Controller) : Type 0 where
  pub calibrated : (d : ℕ) → report.calibrated_duties d ≡ passed f.calibration d
  pub stable : report.gpu_stable ≡ gpu_is_stable clock f

fan_status-kept :
    (wall : ℕ) (report : FanReport) (d : ℕ)
    → ((fan_status wall report).calibrated_duties d ≡ report.calibrated_duties d)
      × ((fan_status wall report).gpu_stable ≡ report.gpu_stable)
unfolding fan_status
fan_status-kept wall report d = ground arith

-- The controller's tests on a command whose checks the server has passed.
start_accepted :
    (wall clock : ℕ) (report : FanReport) (f : Controller) (sample : Option GpuSample)
    (duty duration : ℕ)
    → check_manual (fan_status wall report) duty duration ≡ none
    → Reflects report clock f
    → (start_calibration clock sample duty (1000 * duration) f).manual
      ≡ some (new_manual duty true clock (1000 * duration) (sampled_temperature sample))
unfolding check_manual start_calibration
start_accepted wall clock report f sample duty duration ok w = ground (
  arith,
  fan_status-kept wall report 0,
  w.stable,
  any_ext (λ prior. not ((fan_status wall report).calibrated_duties prior))
      (λ prior. not (passed f.calibration prior)) (before duty calibration_order)
      (λ d. ap not ((fan_status-kept wall report d).0 ∙ w.calibrated d)),
)

abbrev with_id : Text → Controller → Controller
with_id id f = record f { last_command_id = id }

with_id-Reflects :
    (id : Text) (report : FanReport) (clock : ℕ) (f : Controller)
    → Reflects report clock f
    → Reflects report clock (with_id id f)
unfolding gpu_is_stable
with_id-Reflects id report clock f w = record { calibrated = w.calibrated; stable = w.stable }

consume_accepted :
    (v : Env) (f : Controller) (clock : ℕ) (sample : Option GpuSample) (duty duration : ℕ)
    (c : Command)
    → check_manual (fan_status v.wall v.report) duty duration ≡ none
    → c ≡ record {
      id = v.uuid;
      action = Action.manual;
      duty = present duty;
      duration = present (1000 * duration);
      enabled = false;
    }
    → Reflects v.report clock f
    → is_empty v.uuid ≡ false
    → text_eq v.uuid f.last_command_id ≡ false
    → (consume_command clock sample c f).0.manual
      ≡ some (new_manual duty true clock (1000 * duration) (sampled_temperature sample))
unfolding consume_command run_action
consume_accepted v f clock sample duty duration c ok e w full fresh = rw e (
    rw full (
      rw fresh (
        start_accepted v.wall clock v.report (with_id v.uuid f) sample duty duration ok
          (with_id-Reflects v.uuid v.report clock f w))))

-- A fan test that the server accepts is started by the controller that the report describes, if
-- the command's identifier is new to it: the command carries a duty and a duration, and consuming
-- it opens a calibration lease of this duty for this long.
pub accepted_test_starts :
    (v : Env) (r : Request) (s : Server) (c : Command) (f : Controller) (clock : ℕ)
    (sample : Option GpuSample)
    → r.route ≡ Route.fan_manual
    → (do_post v r s).0 ≡ Reply.command_written c
    → Reflects v.report clock f
    → is_empty v.uuid ≡ false
    → text_eq v.uuid f.last_command_id ≡ false
    → (duty : ℕ) × (duration : ℕ) × (c.duty ≡ present duty)
      × (c.duration ≡ present (1000 * duration))
      × ((consume_command clock sample c f).0.manual
          ≡ some (new_manual duty true clock (1000 * duration) (sampled_temperature sample)))
accepted_test_starts v r s c f clock sample e h w full fresh =
    let (duty, duration, ok, same) = do_post-IsAccepted v r s c e h in
    (
      duty,
      duration,
      ap (λ (k : Command). k.duty) same,
      ap (λ (k : Command). k.duration) same,
      consume_accepted v f clock sample duty duration c ok same w full fresh,
    )

check_manual_guards :
    (wall duty duration : ℕ) (report : FanReport)
    → check_manual (fan_status wall report) duty duration ≡ none
    → (is_stale wall report.updated_at ≡ false)
      × (report.healthy ≡ true)
      × ((100 ≤ duty) ⊎ (report.gpu_stable ≡ true))
      × (any (λ prior. not (report.calibrated_duties prior)) (before duty calibration_order)
          ≡ false)
unfolding check_manual fan_status
check_manual_guards wall duty duration report ok = ground arith

-- A report over which the command of a fan test may be written.
abbrev pub IsGuarded : Env → Command → Type 0
IsGuarded v c =
    (duty : ℕ) × (c.action ≡ Action.manual)
    × (c.duty ≡ present duty)
    × (is_stale v.wall v.report.updated_at ≡ false)
    × (v.report.healthy ≡ true)
    × ((100 ≤ duty) ⊎ (v.report.gpu_stable ≡ true))
    × (any (λ prior. not (v.report.calibrated_duties prior)) (before duty calibration_order)
        ≡ false)

-- The command file is left alone, or it holds a command of a fan test and the report allows it.
abbrev pub IsWritten : Env → Server → Server → Type 0
IsWritten v s s' =
    (s'.command_file ≡ s.command_file)
    ⊎ ((c : Command) × (s'.command_file ≡ some c) × IsGuarded v c)

checked-IsWritten :
    (v : Env) (duty duration : ℕ) (s : Server) (o : Option Refusal)
    → check_manual (fan_status v.wall v.report) duty duration ≡ o
    → IsWritten v s
        (elim o as (λ (x : Option Refusal). Reply × Server) [
          | some why ↦ (Reply.refused why, s)
          | none ↦
              written (
                write_fan_command v Action.manual
                  (present duty)
                  (present (1000 * duration))
                  false
                  s)
        ]).1
unfolding write_fan_command
checked-IsWritten v duty duration s (some why) e = inl refl
checked-IsWritten v duty duration s none e =
    let g = check_manual_guards v.wall duty duration v.report e in
    inr (_, refl, (duty, refl, refl, g.0, g.1, g.2, g.3))

request_manual-IsWritten :
    (v : Env) (duty duration : ℕ) (s : Server) → IsWritten v s (request_manual v duty duration s).1
unfolding request_manual
request_manual-IsWritten v duty duration s = checked-IsWritten v duty duration s _ refl

read_manual-IsWritten :
    (v : Env) (d t : Number) (s : Server) → IsWritten v s (read_manual v d t s).1
unfolding read_manual
read_manual-IsWritten v Number.wrong_type t s = inl refl
read_manual-IsWritten v Number.malformed t s = inl refl
read_manual-IsWritten v (Number.present d) Number.wrong_type s = inl refl
read_manual-IsWritten v (Number.present d) Number.malformed s = inl refl
read_manual-IsWritten v (Number.present d) (Number.present t) s = request_manual-IsWritten v d t s

post_manual-IsWritten : (v : Env) (p : Payload) (s : Server) → IsWritten v s (post_manual v p s).1
unfolding post_manual
post_manual-IsWritten v not_object s = inl refl
post_manual-IsWritten v (object b) s = read_manual-IsWritten v b.duty b.duration_seconds s

dispatch-IsWritten :
    (v : Env) (route : Route) (p : Payload) (s : Server)
    → route ≡ Route.fan_manual
    → IsWritten v s (dispatch v route p s).1
unfolding dispatch
dispatch-IsWritten v route p s e =
    subst (λ x. IsWritten v s (dispatch v x p s).1) (sym e) (post_manual-IsWritten v p s)

read_payload-IsWritten :
    (v : Env) (route : Route) (s : Server) (o : Option Payload)
    → route ≡ Route.fan_manual
    → IsWritten v s
        (elim o as (λ (x : Option Payload). Reply × Server) [
          | none ↦ (Reply.bad_json, s)
          | some p ↦ dispatch v route p s
        ]).1
read_payload-IsWritten v route s none e = inl refl
read_payload-IsWritten v route s (some p) e = dispatch-IsWritten v route p s e

branch-IsWritten :
    (v : Env) (s : Server) (t : Bool) (a b : Reply × Server)
    → IsWritten v s a.1
    → IsWritten v s b.1
    → IsWritten v s (if t then a else b).1
branch-IsWritten v s true a b h k = h
branch-IsWritten v s false a b h k = k

read_body-IsWritten :
    (v : Env) (r : Request) (s : Server)
    → r.route ≡ Route.fan_manual
    → IsWritten v s (read_body v r s).1
unfolding read_body
read_body-IsWritten v r s e =
    branch-IsWritten v s (is_force_100 r.route && r.content_length == 0) _ _
      (dispatch-IsWritten v r.route not_object s e)
      (branch-IsWritten v s (r.content_length == 0 || ltb 4096 r.content_length) _ _ (inl refl)
        (read_payload-IsWritten v r.route s r.payload e))

-- A request for a fan test leaves the command file alone, whatever it is answered; or the file then
-- holds a command for a fan test, and the report is at most eight seconds old and healthy, with every
-- earlier step of the calibration passed, and calls the GPU stable if the duty is below 100 percent.
pub test_command_guarded :
    (v : Env) (r : Request) (s : Server)
    → r.route ≡ Route.fan_manual
    → IsWritten v s (do_post v r s).1
unfolding do_post route_post
test_command_guarded v r s e =
    subst (λ x. IsWritten v s (route_post v r x s).1) (sym e)
      (branch-IsWritten v s (is_cross_origin r) _ _ (inl refl) (read_body-IsWritten v r s e))
