-- ===== src/Server/State.antt =====
-- pocisys-gpu-runtime/status_server.py: what the server reads and writes. Times are in milliseconds.
use gauge_umbrel_community.Prelude.{ℕ, Bool, List, Option, Text}
use gauge_umbrel_community.Fan.State.{Mode, Command}

pub record RuntimeSettings : Type 0 where
  pub context_length : ℕ
  pub keep_alive : Text

-- What `int` makes of a value of a JSON object: the key is missing or its value is of a type for
-- which `int` raises `TypeError`, it raises `ValueError`, or it answers a number. A negative number,
-- which no test admits, is `present 0`.
pub data Number : Type 0 where
  wrong_type malformed : Number
  present : ℕ → Number

-- The keys that the handler reads; `duration_seconds` is the default where it is missing, and
-- `enabled` is `payload.get("enabled") is True`.
pub record Body : Type 0 where
  pub context_length : Number
  pub keep_alive : Text
  pub duty : Number
  pub duration_seconds : Number
  pub enabled : Bool

pub data Payload : Type 0 where
  not_object : Payload
  object : Body → Payload

-- The `mode` of a report: the controller's, none, or the server's own.
pub data ReportMode : Type 0 where
  absent stale_controller_status : ReportMode
  controller : Mode → ReportMode

-- The keys of `fan-status.json` that the server reads, with the value that a missing key stands for.
-- `updated_at` is `none` where `float` refuses it.
pub record FanReport : Type 0 where
  pub updated_at : Option ℕ
  pub online : Bool
  pub healthy : Bool
  pub mode : ReportMode
  pub target_percent : ℕ
  pub reported_rpm : ℕ
  pub gpu_stable : Bool
  pub calibrated_duties : ℕ → Bool
  pub calibration_complete : Bool

-- One round of `wait_for_fan_100`: the clock that its condition reads, and the report.
pub record Poll : Type 0 where
  pub clock : ℕ
  pub report : FanReport

-- Ollama's answer to the chat request of the safe test.
pub data ChatReply : Type 0 where
  http_error unreachable : ChatReply
  answered : ℕ → ℕ → ℕ → ChatReply

-- The results of the safe test, in hundredths.
pub record TestResult : Type 0 where
  pub eval_tokens : ℕ
  pub tokens_per_second : ℕ
  pub total_seconds : ℕ
  pub fan : FanReport

pub data Route : Type 0 where
  safe_test settings fan_manual fan_automatic fan_force_100 other : Route

-- A POST request. `origin_netloc` is `urlsplit(origin).netloc`; headers that are missing are empty;
-- `content_length` is 0 where it is missing, malformed or negative; `payload` is `none` where the
-- body is no JSON.
pub record Request : Type 0 where
  pub route : Route
  pub origin : Text
  pub origin_netloc : Text
  pub host : Text
  pub content_length : ℕ
  pub payload : Option Payload

-- What the server meets while it handles a request: the file `fan-status.json`, the wall clock, the
-- identifier of a new command, and the rounds and the answer of a safe test.
pub record Env : Type 0 where
  pub report : FanReport
  pub wall : ℕ
  pub uuid : Text
  pub requested_at : ℕ
  pub started : ℕ
  pub polls : List Poll
  pub chat : ChatReply

-- The two files that the server writes, `TEST_LOCK`, and the number of chat requests sent.
pub record Server : Type 0 where
  pub settings_file : Option Payload
  pub command_file : Option Command
  pub test_running : Bool
  pub chats : ℕ

-- Why a request of the API is answered with an error.
pub data Refusal : Type 0 where
  not_an_object bad_context_length context_length_not_allowed keep_alive_not_allowed : Refusal
  bad_number duty_not_allowed duration_not_allowed fan_unhealthy gpu_unstable : Refusal
  prior_test_missing calibration_missing : Refusal

-- `crashed` is an exception that no handler catches: no answer is sent.
pub data Reply : Type 0 where
  not_found cross_origin bad_size bad_json conflict bad_gateway gateway_timeout crashed : Reply
  refused : Refusal → Reply
  settings_saved : RuntimeSettings → Reply
  command_written : Command → Reply
  tested : TestResult → Reply
