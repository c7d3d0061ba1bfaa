-- ===== src/Config/Safe.antt =====
-- pocisys-hash-monitor/services/validation.py: what a miner that `clean_miner` answers can be relied
-- on for.
use gauge_umbrel_community.Prelude.{
  ◌≤◌, ◌≡◌, refl, subst, Bool, Bool-cases, true, false, ◌||◌, List, [], ◌∷◌, ◌++◌, inl, inr, Option,
  none, some, arith, Text, codes, is_empty, text_eq, length, All, lower,
}
use gauge_umbrel_community.Config.Values.{
  ApiError, is_host, is_time, is_profile, is_board_number, or_text,
}
use gauge_umbrel_community.Config.Miner.{
  RawMiner, Control, CleanMiner, is_one_of, miner_types, mining_targets, miner_checks,
  control_checks, first_error, is_luxos, clean_control, cleaned_miner, clean_miner, answer,
}

-- A profile that can be sent to a LuxOS miner, or none.
pub record IsProfile (t : Text) : Type 0 where
  pub text : is_profile t ≡ true
  pub named : is_board_number t ≡ false

-- The settings by which a LuxOS miner is controlled.
pub record IsControl (c : Control) : Type 0 where
  pub low_time : is_time c.low_time ≡ true
  pub full_time : is_time c.full_time ≡ true
  pub different : c.schedule_enabled ≡ true → text_eq c.low_time c.full_time ≡ false
  pub low_profile : IsProfile c.low_profile
  pub full_profile : IsProfile c.full_profile
  pub restores : (c.enabled || c.schedule_enabled) ≡ true → is_empty c.full_profile ≡ false
  pub lowers :
      c.schedule_enabled ≡ true
      → text_eq c.low_mode (codes "profile") ≡ true
      → is_empty c.low_profile ≡ false
  pub threshold : c.chip_threshold ≤ 100000

-- A LuxOS miner, and no other, has settings of control.
abbrev pub IsControlled : Text → Option Control → Type 0
IsControlled type none = text_eq type (codes "luxos") ≡ false
IsControlled type (some c) = (text_eq type (codes "luxos") ≡ true) × IsControl c

pub record IsMiner (m : CleanMiner) : Type 0 where
  pub named : is_empty m.name ≡ false
  pub short : length m.name ≤ 80
  pub host : is_host m.ip ≡ true
  pub known : is_one_of m.miner_type miner_types ≡ true
  pub target : is_one_of m.mining_target mining_targets ≡ true
  pub grouped : is_empty m.group ≡ false
  pub order : m.display_order ≤ 9999
  pub warns_first : m.temp_warning ≤ m.temp_critical
  pub bounded : m.temp_critical ≤ 150000
  pub controlled : IsControlled m.miner_type m.control

abbrev NoError : List (Bool × ApiError) → Type 0
NoError cs = All (λ (c : Bool × ApiError). c.0 ≡ false) cs

first_error-none : (cs : List (Bool × ApiError)) → first_error cs ≡ none → NoError cs
unfolding first_error
first_error-none [] h = tt
first_error-none ((t, e) ∷ cs) h = (ground arith, first_error-none cs (ground arith))

NoError-append : (cs ds : List (Bool × ApiError)) → NoError (cs ++ ds) → NoError cs × NoError ds
NoError-append [] ds h = (tt, h)
NoError-append (c ∷ cs) ds h = let rest = NoError-append cs ds h.1 in ((h.0, rest.0), rest.1)

answer-inr : (o : Option ApiError) (x m : CleanMiner) → answer o x ≡ inr m → (o ≡ none) × (x ≡ m)
answer-inr none x m h = (refl, ground arith)
answer-inr (some e) x m h = absurd (ground arith)

clean_control-IsControl : (r : RawMiner) → NoError (control_checks r) → IsControl (clean_control r)
unfolding clean_control control_checks
clean_control-IsControl r
      (
        mode,
        (
          low,
          (full, (equal, (text, (number, (text', (number', (restores, (lowers, (bad, end))))))))),
        ),
      ) =
    record {
      low_time = ground arith;
      full_time = ground arith;
      different = λ on. ground arith;
      low_profile = record { text = ground arith; named = number };
      full_profile = record { text = ground arith; named = number' };
      restores = λ on. ground arith;
      lowers = λ on profile. ground arith;
      threshold = ground arith;
    }

or_text-full : (t default : Text) → is_empty default ≡ false → is_empty (or_text t default) ≡ false
unfolding or_text
or_text-full t default h = ground arith

cleaned_miner-IsMiner :
    (r : RawMiner) (control : Option Control)
    → NoError (miner_checks r)
    → IsControlled (lower r.miner_type) control
    → IsMiner (cleaned_miner r control)
unfolding cleaned_miner miner_checks
cleaned_miner-IsMiner r control
      (
        name,
        (
          type,
          (
            w,
            (c, (warning, (critical, (below, (bad, (minimum, (target, (host, (order, end))))))))),
          ),
        ),
      )
      k =
    record {
      named = ground arith;
      short = ground arith;
      host = ground arith;
      known = ground arith;
      target = ground arith;
      grouped = or_text-full _ (codes "Ungrouped") refl;
      order = ground arith;
      warns_first = ground arith;
      bounded = ground arith;
      controlled = k;
    }

-- A miner that `clean_miner` answers has a name of at most 80 characters, a host, a known type and
-- mining target, a group, an order of at most 9999, and a warning temperature that is at most its
-- critical one, which is at most 150 degrees. It has settings of control if and only if it is a LuxOS
-- miner. Their times match the pattern of hours and minutes, whose second and last digits may be
-- decimal digits of any script, and are different texts where the schedule is on; their profiles are
-- no board numbers; there is a normal profile where control or the schedule is on, and a low one where
-- the schedule is on and lowers by profile.
pub clean_miner-IsMiner : (r : RawMiner) (m : CleanMiner) → clean_miner r ≡ inr m → IsMiner m
unfolding clean_miner is_luxos
clean_miner-IsMiner r m h = elim (Bool-cases (is_luxos r)) [
  | inl luxos ↦
      let a =
        answer-inr (first_error (miner_checks r ++ control_checks r))
          (cleaned_miner r (some (clean_control r))) m (ground arith) in
      let checks =
        NoError-append (miner_checks r) (control_checks r)
          (first_error-none (miner_checks r ++ control_checks r) a.0) in
      subst IsMiner a.1
        (cleaned_miner-IsMiner r _ checks.0 (luxos, clean_control-IsControl r checks.1))
  | inr other ↦
      let a = answer-inr (first_error (miner_checks r)) (cleaned_miner r none) m (ground arith) in
      subst IsMiner a.1 (cleaned_miner-IsMiner r none (first_error-none (miner_checks r) a.0) other)
]
