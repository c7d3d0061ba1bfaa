-- ===== src/Server/Settings.antt =====
-- pocisys-gpu-runtime/status_server.py: the runtime settings.
use gauge_umbrel_community.Prelude.{
  ℕ, Bool, false, not, ◌||◌, Option, none, some, Text, codes, text_eq, ◌==◌, if◌then◌else◌,
}
use gauge_umbrel_community.Server.State.{
  RuntimeSettings, Number, wrong_type, malformed, present, Payload, not_object, object, Refusal,
}

pub data Validated {ℓ} (A : Type ℓ) : Type ℓ where
  valid : A → Validated A
  invalid : Refusal → Validated A

unfoldable pub is_context_length : ℕ → Bool
is_context_length n = n == 1024 || n == 2048 || n == 4096

unfoldable pub is_keep_alive : Text → Bool
is_keep_alive t = text_eq t (codes "0") || text_eq t (codes "30s") || text_eq t (codes "2m")

-- `default_runtime_settings`, on the two environment variables; `none` is no number.
unfoldable pub default_runtime_settings : Option ℕ → Text → RuntimeSettings
unfolding is_context_length is_keep_alive
default_runtime_settings length keep = record {
  context_length = elim length [ none ↦ 4096 | some n ↦ if is_context_length n then n else 4096 ];
  keep_alive = (if is_keep_alive keep then keep else codes "0");
}

unfoldable pub check_settings : ℕ → Text → Validated RuntimeSettings
check_settings n keep =
    if not (is_context_length n)
    then invalid Refusal.context_length_not_allowed
    else if not (is_keep_alive keep)
    then invalid Refusal.keep_alive_not_allowed
    else valid (record { context_length = n; keep_alive = keep })

abbrev pub read_length : Number → Text → Validated RuntimeSettings
read_length wrong_type keep = invalid Refusal.bad_context_length
read_length malformed keep = invalid Refusal.bad_context_length
read_length (present n) keep = check_settings n keep

unfoldable pub validate_runtime_settings : Payload → Validated RuntimeSettings
unfolding check_settings
validate_runtime_settings not_object = invalid Refusal.not_an_object
validate_runtime_settings (object b) = read_length b.context_length b.keep_alive

-- `read_runtime_settings`: the file's settings, or the default where there are none.
unfoldable pub read_runtime_settings : Option ℕ → Text → Option Payload → RuntimeSettings
unfolding validate_runtime_settings default_runtime_settings
read_runtime_settings length keep none = default_runtime_settings length keep
read_runtime_settings length keep (some p) = elim (validate_runtime_settings p) [
  | valid s ↦ s
  | invalid why ↦ default_runtime_settings length keep
]

-- What `write_runtime_settings` puts into the file.
unfoldable pub stored_settings : RuntimeSettings → Payload
stored_settings s = object (record {
  context_length = present s.context_length;
  keep_alive = s.keep_alive;
  duty = wrong_type;
  duration_seconds = wrong_type;
  enabled = false;
})
