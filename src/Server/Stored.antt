-- ===== src/Server/Stored.antt =====
-- pocisys-gpu-runtime/status_server.py: the settings file, and requests that are not answered.
use gauge_umbrel_community.Prelude.{
  ℕ, ◌≡◌, refl, true, codes, text_eq, Option, none, some, Text, arith, ap, ◌∙◌,
}
use gauge_umbrel_community.Server.State.{
  RuntimeSettings, Number, Payload, not_object, object, Route, Request, Env, Server, Reply,
}
use gauge_umbrel_community.Server.Settings.{
  Validated, valid, invalid, check_settings, read_length, is_context_length, is_keep_alive,
  default_runtime_settings, validate_runtime_settings, read_runtime_settings, stored_settings,
}
use gauge_umbrel_community.Server.Handler.{save_settings, dispatch, read_body, route_post, do_post}

-- Settings that the server accepts.
abbrev pub IsAllowed : RuntimeSettings → Type 0
IsAllowed x = (is_context_length x.context_length ≡ true) × (is_keep_alive x.keep_alive ≡ true)

immediate : is_keep_alive (codes "0") ≡ true
unfolding is_keep_alive text_eq
immediate = refl

default-IsAllowed :
    (length : Option ℕ) (keep : Text) → IsAllowed (default_runtime_settings length keep)
unfolding default_runtime_settings
default-IsAllowed none keep = ground (arith, immediate)
default-IsAllowed (some n) keep = ground (arith, immediate)

read_length-IsAllowed :
    (n : Number) (keep : Text) (x : RuntimeSettings) → read_length n keep ≡ valid x → IsAllowed x
unfolding check_settings
read_length-IsAllowed Number.wrong_type keep x h = absurd (ground arith)
read_length-IsAllowed Number.malformed keep x h = absurd (ground arith)
read_length-IsAllowed (Number.present n) keep x h = ground arith

validate-IsAllowed :
    (p : Payload) (x : RuntimeSettings) → validate_runtime_settings p ≡ valid x → IsAllowed x
unfolding validate_runtime_settings
validate-IsAllowed not_object x h = absurd (ground arith)
validate-IsAllowed (object b) x h = read_length-IsAllowed b.context_length b.keep_alive x h

settle-IsAllowed :
    (length : Option ℕ) (keep : Text) (o : Validated RuntimeSettings)
    → ((x : RuntimeSettings) → o ≡ valid x → IsAllowed x)
    → IsAllowed (elim o [ valid x ↦ x | invalid why ↦ default_runtime_settings length keep ])
settle-IsAllowed length keep (valid x) h = h x refl
settle-IsAllowed length keep (invalid why) h = default-IsAllowed length keep

-- Whatever the file and the environment hold, the settings that the server reads are allowed ones.
pub read_runtime_settings-IsAllowed :
    (length : Option ℕ) (keep : Text) (file : Option Payload)
    → IsAllowed (read_runtime_settings length keep file)
unfolding read_runtime_settings
read_runtime_settings-IsAllowed length keep none = default-IsAllowed length keep
read_runtime_settings-IsAllowed length keep (some p) =
    settle-IsAllowed length keep (validate_runtime_settings p) (validate-IsAllowed p)

read-stored :
    (length : Option ℕ) (keep : Text) (x : RuntimeSettings)
    → IsAllowed x
    → read_runtime_settings length keep (some (stored_settings x)) ≡ x
unfolding read_runtime_settings stored_settings validate_runtime_settings
read-stored length keep x h = ground arith

save-stored :
    (o : Validated RuntimeSettings) (s : Server) (x : RuntimeSettings)
    → (save_settings o s).0 ≡ Reply.settings_saved x
    → (o ≡ valid x) × ((save_settings o s).1.settings_file ≡ some (stored_settings x))
unfolding save_settings
save-stored (valid y) s x h = ground arith
save-stored (invalid why) s x h = absurd (ground arith)

save-read :
    (length : Option ℕ) (keep : Text) (p : Payload) (s : Server) (x : RuntimeSettings)
    → (save_settings (validate_runtime_settings p) s).0 ≡ Reply.settings_saved x
    → read_runtime_settings length keep
        (save_settings (validate_runtime_settings p) s).1.settings_file
      ≡ x
save-read length keep p s x h =
    let (accepted, file) = save-stored (validate_runtime_settings p) s x h in
    ap (read_runtime_settings length keep) file
    ∙ read-stored length keep x (validate-IsAllowed p x accepted)

read_body-read :
    (v : Env) (r : Request) (s : Server) (x : RuntimeSettings) (length : Option ℕ) (keep : Text)
    (o : Option Payload)
    → r.route ≡ Route.settings
    → r.payload ≡ o
    → (do_post v r s).0 ≡ Reply.settings_saved x
    → read_runtime_settings length keep (do_post v r s).1.settings_file ≡ x
unfolding do_post route_post read_body dispatch
read_body-read v r s x length keep none e q h = absurd (ground arith)
read_body-read v r s x length keep (some p) e q h = ground (arith, save-read length keep p s x)

-- Settings that a request has saved are the ones that the server reads next.
pub read-do_post :
    (v : Env) (r : Request) (s : Server) (x : RuntimeSettings) (length : Option ℕ) (keep : Text)
    → r.route ≡ Route.settings
    → (do_post v r s).0 ≡ Reply.settings_saved x
    → read_runtime_settings length keep (do_post v r s).1.settings_file ≡ x
read-do_post v r s x length keep e h = read_body-read v r s x length keep r.payload e refl h
