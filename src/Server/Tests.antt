-- ===== src/Server/Tests.antt =====
-- pocisys-gpu-runtime/status_server.py: concrete requests, and the theorems applied to them.
use gauge_umbrel_community.Prelude.{
  ℕ, ◌*◌, ◌≡◌, refl, true, false, [], ◌∷◌, none, some, text_eq, codes,
}
use gauge_umbrel_community.Fan.State.{
  Settings, Controller, CalibrationEntry, Reason, Action, present, Command,
}
use gauge_umbrel_community.Fan.Manual.{
  gpu_is_stable, new_manual, sampled_temperature, consume_command,
}
use gauge_umbrel_community.Server.State.{
  RuntimeSettings, Number, Body, object, ReportMode, FanReport, ChatReply, Route, Request, Env,
  Server, Reply,
}
use gauge_umbrel_community.Server.Settings.{
  read_runtime_settings, is_context_length, is_keep_alive, validate_runtime_settings,
}
use gauge_umbrel_community.Server.SafeTest.{await_full, fan_status, run_safe_test}
use gauge_umbrel_community.Server.Handler.{
  do_post, read_body, dispatch, post_manual, read_manual, request_manual, post_test, save_settings,
  is_cross_origin, check_manual,
}
use gauge_umbrel_community.Server.Commands.{
  Reflects, IsWritten, accepted_test_starts, test_command_guarded,
}
use gauge_umbrel_community.Server.Safe.{IsTested, do_post-IsTested}
use gauge_umbrel_community.Server.Stored.{IsAllowed, read_runtime_settings-IsAllowed, read-do_post}

abbrev entry : CalibrationEntry
entry = record {
  success = true;
  reason = Reason.completed;
  completed_at = 1;
  min_rpm = none;
  max_rpm = none;
  start_temperature = none;
  max_temperature = none;
}

abbrev fan_settings : Settings
fan_settings = record {
  automatic_enabled = false;
  gpu_uuid = codes "gpu";
  fan_serial = codes "fan";
  fan_channel = some 0;
}

-- A stable controller whose first calibration step has passed.
abbrev controller : Controller
controller = record {
  settings = fan_settings;
  saved_settings = fan_settings;
  calibration = λ d. some entry;
  saved_calibration = λ d. none;
  last_command_id = codes "a";
  last_hub_online = true;
  last_sent_duty = some 100;
  last_sent_at = 0;
  busy_until = 0;
  reconnect_until = 0;
  manual = none;
  gpu_temperatures =
      record { at = 0; temperature = 30000 }
      ∷ record { at = 3000; temperature = 30000 }
      ∷ record { at = 6000; temperature = 30000 }
      ∷ record { at = 9000; temperature = 30500 }
      ∷ [];
}

abbrev report : FanReport
report = record {
  updated_at = some 9000;
  online = true;
  healthy = true;
  mode = ReportMode.absent;
  target_percent = 100;
  reported_rpm = 2100;
  gpu_stable = true;
  calibrated_duties = λ d. true;
  calibration_complete = false;
}

abbrev env : Env
env = record {
  report = report;
  wall = 10000;
  uuid = codes "b";
  requested_at = 9000;
  started = 500;
  polls = record { clock = 600; report = report } ∷ [];
  chat = ChatReply.answered 10 2000000000 0;
}

abbrev body : Body
body = record {
  context_length = Number.present 2048;
  keep_alive = codes "30s";
  duty = Number.present 70;
  duration_seconds = Number.present 25;
  enabled = false;
}

abbrev request : Route → Body → Request
request route b = record {
  route = route;
  origin = [];
  origin_netloc = [];
  host = codes "umbrel";
  content_length = 40;
  payload = some (object b);
}

abbrev server : Server
server = record { settings_file = none; command_file = none; test_running = false; chats = 0 }

abbrev test_command : Command
test_command = record {
  id = codes "b";
  action = Action.manual;
  duty = present 70;
  duration = present 25000;
  enabled = false;
}

posted : (do_post env (request Route.fan_manual body) server).0 ≡ Reply.command_written test_command
unfolding do_post is_cross_origin read_body dispatch post_manual read_manual request_manual
    check_manual fan_status
posted = refl

reflected : Reflects report 10000 controller
unfolding gpu_is_stable
reflected = record { calibrated = λ d. refl; stable = refl }

fresh_id : text_eq (codes "b") (codes "a") ≡ false
unfolding text_eq
fresh_id = refl

accepted_test_starts_example :
    (duty : ℕ) × (duration : ℕ) × (test_command.duty ≡ present duty)
    × (test_command.duration ≡ present (1000 * duration))
    × ((consume_command 10000 none test_command controller).0.manual
        ≡ some (new_manual duty true 10000 (1000 * duration) (sampled_temperature none)))
accepted_test_starts_example =
    accepted_test_starts env (request Route.fan_manual body) server test_command controller 10000
      none refl posted reflected refl fresh_id

test_command_guarded_example :
    IsWritten env server (do_post env (request Route.fan_manual body) server).1
test_command_guarded_example = test_command_guarded env (request Route.fan_manual body) server refl

do_post-IsTested_example : IsTested env server (do_post env (request Route.safe_test body) server)
do_post-IsTested_example = do_post-IsTested env (request Route.safe_test body) server

-- The fan is confirmed, and the safe test sends its request.
sends_chat : (do_post env (request Route.safe_test body) server).1.chats ≡ 1
unfolding do_post is_cross_origin post_test run_safe_test await_full
sends_chat = refl

read_runtime_settings-IsAllowed_example :
    IsAllowed (read_runtime_settings (some 5) (codes "9h") (some (object body)))
read_runtime_settings-IsAllowed_example =
    read_runtime_settings-IsAllowed (some 5) (codes "9h") (some (object body))

abbrev chosen : RuntimeSettings
chosen = record { context_length = 2048; keep_alive = codes "30s" }

saved : (do_post env (request Route.settings body) server).0 ≡ Reply.settings_saved chosen
unfolding do_post is_cross_origin read_body dispatch save_settings validate_runtime_settings
    is_context_length is_keep_alive text_eq
saved = refl

read-do_post_example :
    read_runtime_settings none [] (do_post env (request Route.settings body) server).1.settings_file
    ≡ chosen
read-do_post_example =
    read-do_post env (request Route.settings body) server chosen none [] refl saved

abbrev no_duty : Body
no_duty = record body { duty = Number.wrong_type }

same_origin : is_cross_origin (request Route.fan_manual no_duty) ≡ false
unfolding is_cross_origin
same_origin = refl

-- A fan test of an object without a duty is not answered.
missing_duty_crashes :
    do_post env (request Route.fan_manual no_duty) server ≡ (Reply.crashed, server)
unfolding do_post is_cross_origin read_body dispatch post_manual read_manual
missing_duty_crashes = refl
