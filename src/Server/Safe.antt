-- ===== src/Server/Safe.antt =====
-- pocisys-gpu-runtime/status_server.py: when the safe test sends a request, and its lock.
use gauge_umbrel_community.Prelude.{
  ℕ, ◌+◌, ◌≡◌, ◌⊎◌, inl, refl, Bool, true, false, ◌&&◌, List, [], ◌∷◌, Option, none, some, arith,
  any, ltb,
}
use gauge_umbrel_community.Server.State.{
  Payload, not_object, object, FanReport, Poll, Route, Request, Env, Number, Server, Reply,
  RuntimeSettings,
}
use gauge_umbrel_community.Server.Settings.{Validated, valid, invalid, validate_runtime_settings}
use gauge_umbrel_community.Server.SafeTest.{
  write_fan_command, confirms_full, await_full, wait_for_fan_100, after_wait, run_safe_test,
}
use gauge_umbrel_community.Server.Handler.{
  save_settings, request_manual, read_manual, post_manual, post_automatic, dispatch, read_body,
  post_test, route_post, do_post,
}

-- Whether a round before the deadline read a report that confirms full speed since the request.
abbrev pub is_confirmed : Env → Bool
is_confirmed v =
    any (λ (p : Poll). ltb p.clock (v.started + 8000) && confirms_full v.requested_at p.report)
      v.polls

await_full_confirmed :
    (requested deadline : ℕ) (ps : List Poll) (fan : FanReport)
    → await_full requested deadline ps ≡ some fan
    → any (λ (p : Poll). ltb p.clock deadline && confirms_full requested p.report) ps ≡ true
unfolding await_full
await_full_confirmed requested deadline [] fan h = ground arith
await_full_confirmed requested deadline (p ∷ ps) fan h =
    ground (arith, await_full_confirmed requested deadline ps fan)

-- What a request does to the lock and to the number of chat requests.
abbrev pub IsQuiet : Server → Reply × Server → Type 0
IsQuiet s x = (x.1.test_running ≡ s.test_running) × (x.1.chats ≡ s.chats)

request_manual-IsQuiet : (v : Env) (d t : ℕ) (s : Server) → IsQuiet s (request_manual v d t s)
unfolding request_manual write_fan_command
request_manual-IsQuiet v d t s = ground arith

read_manual-IsQuiet : (v : Env) (d t : Number) (s : Server) → IsQuiet s (read_manual v d t s)
unfolding read_manual
read_manual-IsQuiet v Number.wrong_type t s = (refl, refl)
read_manual-IsQuiet v Number.malformed t s = (refl, refl)
read_manual-IsQuiet v (Number.present d) Number.wrong_type s = (refl, refl)
read_manual-IsQuiet v (Number.present d) Number.malformed s = (refl, refl)
read_manual-IsQuiet v (Number.present d) (Number.present t) s = request_manual-IsQuiet v d t s

post_manual-IsQuiet : (v : Env) (p : Payload) (s : Server) → IsQuiet s (post_manual v p s)
unfolding post_manual
post_manual-IsQuiet v not_object s = (refl, refl)
post_manual-IsQuiet v (object b) s = read_manual-IsQuiet v b.duty b.duration_seconds s

post_automatic-IsQuiet : (v : Env) (p : Payload) (s : Server) → IsQuiet s (post_automatic v p s)
unfolding post_automatic write_fan_command
post_automatic-IsQuiet v not_object s = (refl, refl)
post_automatic-IsQuiet v (object b) s = ground arith

save_settings-IsQuiet : (x : Validated RuntimeSettings) (s : Server) → IsQuiet s (save_settings x s)
unfolding save_settings
save_settings-IsQuiet (valid x) s = (refl, refl)
save_settings-IsQuiet (invalid why) s = (refl, refl)

dispatch-IsQuiet : (v : Env) (k : Route) (p : Payload) (s : Server) → IsQuiet s (dispatch v k p s)
unfolding dispatch write_fan_command
dispatch-IsQuiet v Route.settings p s = save_settings-IsQuiet (validate_runtime_settings p) s
dispatch-IsQuiet v Route.fan_manual p s = post_manual-IsQuiet v p s
dispatch-IsQuiet v Route.fan_automatic p s = post_automatic-IsQuiet v p s
dispatch-IsQuiet v Route.fan_force_100 p s = (refl, refl)
dispatch-IsQuiet v Route.safe_test p s = (refl, refl)
dispatch-IsQuiet v Route.other p s = (refl, refl)

read_body-IsQuiet :
    (v : Env) (r : Request) (s : Server) (o : Option Payload)
    → r.payload ≡ o
    → IsQuiet s (read_body v r s)
unfolding read_body
read_body-IsQuiet v r s none e = ground (arith, dispatch-IsQuiet v r.route not_object s)
read_body-IsQuiet v r s (some p) e =
    ground (arith, dispatch-IsQuiet v r.route not_object s, dispatch-IsQuiet v r.route p s)

abbrev pub IsTested : Env → Server → Reply × Server → Type 0
IsTested v s x =
    (x.1.test_running ≡ s.test_running)
    × ((x.1.chats ≡ s.chats)
        ⊎ ((x.1.chats ≡ s.chats + 1) × (s.test_running ≡ false) × (is_confirmed v ≡ true)))

post_test-IsQuiet :
    (v : Env) (s : Server)
    → await_full v.requested_at (v.started + 8000) v.polls ≡ none
    → IsQuiet s (post_test v s)
unfolding post_test run_safe_test wait_for_fan_100 after_wait
post_test-IsQuiet v s e = ground arith

post_test-IsTested :
    (v : Env) (s : Server) (o : Option FanReport)
    → await_full v.requested_at (v.started + 8000) v.polls ≡ o
    → IsTested v s (post_test v s)
unfolding post_test run_safe_test wait_for_fan_100 after_wait
post_test-IsTested v s none e = let q = post_test-IsQuiet v s e in (q.0, inl q.1)
post_test-IsTested v s (some fan) e =
    ground (arith, await_full_confirmed v.requested_at (v.started + 8000) v.polls fan)

route_post-IsTested :
    (v : Env) (r : Request) (k : Route) (s : Server) → IsTested v s (route_post v r k s)
unfolding route_post
route_post-IsTested v r Route.safe_test s =
    ground
      (arith, post_test-IsTested v s (await_full v.requested_at (v.started + 8000) v.polls) refl)
route_post-IsTested v r Route.other s = (refl, inl refl)
route_post-IsTested v r _ s = ground (arith, read_body-IsQuiet v r s r.payload refl)

-- A request releases the lock of the safe test if it takes it, and sends at most one chat request,
-- and that only where no test was running and a report read before the deadline confirmed a healthy
-- fan at 100 percent, with a speed above 0, since the command for it was written.
pub do_post-IsTested : (v : Env) (r : Request) (s : Server) → IsTested v s (do_post v r s)
unfolding do_post
do_post-IsTested v r s = route_post-IsTested v r r.route s
