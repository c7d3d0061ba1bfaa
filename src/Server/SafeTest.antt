-- ===== src/Server/SafeTest.antt =====
-- pocisys-gpu-runtime/status_server.py: the fan's status, commands to the fan controller and the
-- safe test.
use gauge_umbrel_community.Prelude.{
  ℕ, ◌+◌, ◌*◌, Bool, true, false, not, ◌&&◌, ◌||◌, List, [], ◌∷◌, Option, none, some, ltb, leb,
  ◌==◌, if◌then◌else◌,
}
use gauge_umbrel_community.Fan.Curve.{round_ratio}
use gauge_umbrel_community.Fan.State.{Action, Field, missing, Command}
use gauge_umbrel_community.Server.State.{
  ReportMode, FanReport, Poll, ChatReply, http_error, unreachable, answered, Env, Server, Reply,
}

-- `write_fan_command`: the command, and the state with it in the file.
unfoldable pub write_fan_command : Env → Action → Field → Field → Bool → Server → Command × Server
write_fan_command v action duty duration enabled s =
    let c : Command = record {
      id = v.uuid;
      action = action;
      duty = duty;
      duration = duration;
      enabled = enabled;
    } in
    (c, record s { command_file = some c })

-- A report is stale once it is more than eight seconds old.
unfoldable pub is_stale : ℕ → Option ℕ → Bool
is_stale wall none = true
is_stale wall (some at) = ltb (at + 8000) wall

unfoldable pub fan_status : ℕ → FanReport → FanReport
unfolding is_stale
fan_status wall r =
    if is_stale wall r.updated_at
    then record r {
      online = false;
      healthy = false;
      mode = ReportMode.stale_controller_status;
      target_percent = 100;
    }
    else r

-- Whether a report confirms full speed since `requested_at`.
unfoldable pub confirms_full : ℕ → FanReport → Bool
confirms_full requested r =
    r.healthy
    && r.target_percent == 100
    && ltb 0 r.reported_rpm
    && elim r.updated_at [ none ↦ false | some at ↦ leb requested at ]

-- The loop of `wait_for_fan_100`; `none` is its error. Where the rounds end, the clock has reached
-- the deadline.
unfoldable pub await_full : ℕ → ℕ → List Poll → Option FanReport
unfolding confirms_full
await_full requested deadline [] = none
await_full requested deadline (p ∷ ps) =
    let rest = await_full requested deadline ps in
    if not (ltb p.clock deadline)
    then none
    else if confirms_full requested p.report
    then some p.report
    else rest

unfoldable pub wait_for_fan_100 : Env → Server → Option FanReport × Server
unfolding write_fan_command
wait_for_fan_100 v s = (
  await_full v.requested_at (v.started + 8000) v.polls,
  (write_fan_command v Action.force_100 missing missing false s).1,
)

-- Hundredths of a unit, as Python's `round(x, 2)`, or 0.
unfoldable pub tokens_per_second : ℕ → ℕ → ℕ
tokens_per_second count duration =
    if count == 0 || duration == 0 then 0 else round_ratio (count * 100000000000) duration

-- The rest of `run_safe_test`, once the fan is confirmed: the chat request and its answer.
unfoldable pub chat : FanReport → ChatReply → Reply
unfolding tokens_per_second
chat fan http_error = Reply.bad_gateway
chat fan unreachable = Reply.gateway_timeout
chat fan (answered count duration total) = Reply.tested (record {
  eval_tokens = count;
  tokens_per_second = tokens_per_second count duration;
  total_seconds = round_ratio total 10000000;
  fan = fan;
})

unfoldable pub after_wait : Env → Option FanReport × Server → Reply × Server
unfolding chat
after_wait v (none, s) = (Reply.gateway_timeout, s)
after_wait v (some fan, s) = (chat fan v.chat, record s { chats = s.chats + 1 })

-- `run_safe_test`, with what the handler answers.
unfoldable pub run_safe_test : Env → Server → Reply × Server
unfolding wait_for_fan_100 after_wait
run_safe_test v s = after_wait v (wait_for_fan_100 v s)
