-- ===== src/Luxos/Ceiling.antt =====
-- pocisys-hash-monitor/services/luxos_control.py: the Normal Operating Profile is a ceiling for every
-- command that an action sends.
pub mod Actions
use gauge_umbrel_community.Prelude.{
  ℕ, zero, suc, ◌+◌, ◌≤◌, ◌<◌, ◌≡◌, ◌≢◌, ◌⊎◌, inl, inr, refl, Bool, true, false, not, Option, none,
  some, List, [], ◌∷◌, ◌++◌, map, ◌&&◌, ◌||◌, arith, if◌then◌else◌, Bool-cases, Option-cases, subst,
  sym, ap, ◌∙◌, All, Text, text_eq, text_eq→eq, strip, is_some, is_empty, ltb, leb, min, put,
}
use gauge_umbrel_community.Luxos.State.{
  LowMode, Target, Miner, Config, Profile, Catalog, Command, reboot, profileset, ControlError,
  Message, Action, Source, Cached, Service,
}
use gauge_umbrel_community.Luxos.Monad.{
  Result, ok, err, Method, pure, raise, or_raise, ◌>>=◌, ◌>>◌, raise_if, modify, continue,
}
use gauge_umbrel_community.Luxos.Client.{
  Client, board_count, session_batch, set_boards, restart_board, set_profile_command, range_from,
}
use gauge_umbrel_community.Luxos.Profiles.{
  Level, find_miner, find_profile, compare_profile_level, assert_low_not_above_normal,
  list_profiles, check_role, apply_profile, set_profile, restore_full, is_invalid_profile,
  observe_after_profile_change, note_profile,
}
use gauge_umbrel_community.Luxos.Execute.{
  Clock, check_board, start_board, stop_board, curtail, perform,
}
use gauge_umbrel_community.Luxos.Sends.{
  Extends, Extends-refl, Sends, Sends-bind, Sends-session_batch, Sends-set_boards,
}

-- The rows of the catalog that the miner answers with.
abbrev pub rows : Client → List Profile
rows c = elim c.profiles [ none ↦ [] | some v ↦ v.profiles ]

-- A comparison that proves the first profile no higher than the second.
abbrev pub NotAbove : Option Level → Type 0
NotAbove none = ⊥
NotAbove (some Level.above) = ⊥
NotAbove (some Level.same) = Unit
NotAbove (some Level.below) = Unit

-- A profile that may be set: the miner offers it, and it is the normal one, or the curtailed one
-- where the catalog proves it no higher than the normal one.
abbrev pub IsCurtailed : List Profile → Miner → Text → Type 0
IsCurtailed ps m name =
    (name ≡ strip m.low_profile)
    × NotAbove
        (compare_profile_level (find_profile name ps) (find_profile (strip m.full_profile) ps))

abbrev pub IsSafeProfile : List Profile → Miner → Text → Type 0
IsSafeProfile ps m name =
    (is_some (find_profile name ps) ≡ true)
    × ((name ≡ strip m.full_profile) ⊎ IsCurtailed ps m name)

-- A command that an action may send: to its own miner, a safe profile, or a hashboard under 8 that is
-- stopped at once or started after ten seconds.
abbrev pub IsSafe : List Profile → Miner → ℕ × Command → Type 0
IsSafe ps m (id, profileset name) = (id ≡ m.id) × IsSafeProfile ps m name
IsSafe ps m (id, reboot board delay) = (id ≡ m.id) × (board < 8) × ((delay ≡ 0) ⊎ (delay ≡ 10))

pub board_count-quiet : (c : Client) (s : Service) → (board_count c s).1 ≡ s
unfolding board_count
board_count-quiet c s = ground arith

pub board_count-le : (c : Client) (s : Service) {n : ℕ} → (board_count c s).0 ≡ ok n → n ≤ 8
unfolding board_count
board_count-le c s {n} h = ground arith

list_profiles-quiet :
    (cfg : Config) (c : Client) (clock id : ℕ) (s : Service)
    → (list_profiles cfg c clock id true s).1.sent ≡ s.sent
unfolding list_profiles
list_profiles-quiet cfg c clock id s = ground arith

list_profiles-fresh :
    (cfg : Config) (c : Client) (clock id : ℕ) (s : Service) {v : Catalog}
    → (list_profiles cfg c clock id true s).0 ≡ ok v
    → c.profiles ≡ some v
unfolding list_profiles
list_profiles-fresh cfg c clock id s {v} h = ground arith

not-false : (b : Bool) → not b ≡ false → b ≡ true
not-false b h = ground arith

pub raise_if-ok :
    (b : Bool) (e : ControlError) (s : Service) {u : Unit {0}}
    → (raise_if b e s).0 ≡ ok u
    → b ≡ false
raise_if-ok b e s h = ground arith

pub raise_if-quiet : (b : Bool) (e : ControlError) (s : Service) → (raise_if b e s).1 ≡ s
raise_if-quiet b e s = ground arith

or_raise-quiet :
    {A : Type 0} (e : ControlError) (o : Option A) (s : Service) → (or_raise e o s).1 ≡ s
or_raise-quiet e none s = refl
or_raise-quiet e (some a) s = refl

or_raise-some :
    {A : Type 0} (e : ControlError) (o : Option A) (s : Service) {a : A}
    → (or_raise e o s).0 ≡ ok a
    → is_some o ≡ true
or_raise-some e none s h = cc
or_raise-some e (some a) s h = refl

check_role-quiet :
    (m : Miner) (ps : List Profile) (name : Text) (role : Target) (s : Service)
    → (check_role m ps name role s).1 ≡ s
unfolding check_role
check_role-quiet m ps name Target.full s = ground arith
check_role-quiet m ps name Target.low s = ground arith

check_low-ok :
    (m : Miner) (ps : List Profile) (name : Text) (s : Service) {u : Unit {0}}
    → (check_role m ps name Target.low s).0 ≡ ok u
    → (text_eq name (strip m.low_profile) ≡ true)
      × NotAbove
          (compare_profile_level (find_profile name ps) (find_profile (strip m.full_profile) ps))
unfolding check_role
check_low-ok m ps name s h = ground arith

check_full-ok :
    (m : Miner) (ps : List Profile) (name : Text) (s : Service) {u : Unit {0}}
    → (check_role m ps name Target.full s).0 ≡ ok u
    → text_eq name (strip m.full_profile) ≡ true
unfolding check_role
check_full-ok m ps name s h = ground arith

check_role-ok :
    (m : Miner) (ps : List Profile) (name : Text) (role : Target) (s : Service) {u : Unit {0}}
    → (check_role m ps name role s).0 ≡ ok u
    → (name ≡ strip m.full_profile) ⊎ IsCurtailed ps m name
check_role-ok m ps name Target.full s h =
    inl (text_eq→eq name (strip m.full_profile) (check_full-ok m ps name s h))
check_role-ok m ps name Target.low s h =
    let (e, level) = check_low-ok m ps name s h in
    inr (text_eq→eq name (strip m.low_profile) e, level)

-- A call that sends nothing, and what follows it.
pub after_quiet :
    {A B : Type 0} (P : ℕ × Command → Type 0) (f : Method A) (g : A → Method B) (s : Service)
    → (f s).1.sent ≡ s.sent
    → ((a : A) → (f s).0 ≡ ok a → Sends P (g a) (f s).1)
    → Sends P (f >>= g) s
after_quiet P f g s e = Sends-bind P f g s (record { new = []; extends = e; holds = tt })

apply_profile-Sends :
    (P : ℕ × Command → Type 0) (c : Client) (clock : ℕ) (m : Miner) (v : Catalog) (name : Text)
    (s : Service)
    → P (m.id, profileset name)
    → Sends P (apply_profile c clock m v name) s
unfolding apply_profile set_profile_command
apply_profile-Sends P c clock m v name s p = elim (Bool-cases (text_eq (strip v.current) name)) [
  | inl active ↦ rw active (Extends-refl P s.sent)
  | inr other ↦ rw other (
      Sends-bind P (session_batch c m.id (profileset name ∷ [])) _ s
        (Sends-session_batch P c m.id (profileset name ∷ []) s (p, tt)) (λ a e. Extends-refl P _))
]

-- The end of `_set_profile`, from the catalog on.
chosen-Sends :
    (c : Client) (clock : ℕ) (m : Miner) (name : Text) (role : Target) (v : Catalog) (s : Service)
    → c.profiles ≡ some v
    → Sends
        (IsSafe (rows c) m)
        (or_raise ControlError.unavailable_profile (find_profile name v.profiles)
          >> (check_role m v.profiles name role >> apply_profile c clock m v name))
        s
chosen-Sends c clock m name role v s fresh =
    let P = IsSafe (rows c) m in
    let offered = or_raise ControlError.unavailable_profile (find_profile name v.profiles) in
    let checked = check_role m v.profiles name role in
    let same : rows c ≡ v.profiles = rw fresh in
    after_quiet P offered _ s
      (ap (λ t. t.sent)
        (or_raise-quiet ControlError.unavailable_profile (find_profile name v.profiles) s))
      λ p found.
        after_quiet P checked _ (offered s).1
          (ap (λ t. t.sent) (check_role-quiet m v.profiles name role (offered s).1))
          λ u allowed. apply_profile-Sends P c clock m v name (checked (offered s).1).1 (
            rw same (
              refl,
              (
                or_raise-some ControlError.unavailable_profile (find_profile name v.profiles) s
                    found,
                check_role-ok m v.profiles name role (offered s).1 allowed,
              ),
            ))

pub set_profile-Sends :
    (cfg : Config) (c : Client) (clock : ℕ) (m : Miner) (profile : Text) (role : Target)
    (s : Service)
    → Sends (IsSafe (rows c) m) (set_profile cfg c clock m profile role) s
unfolding set_profile
set_profile-Sends cfg c clock m profile role s =
    let name = strip profile in
    let P = IsSafe (rows c) m in
    let valid = raise_if (is_invalid_profile name) ControlError.invalid_profile in
    let listed = list_profiles cfg c clock m.id true in
    after_quiet P valid _ s
      (ap (λ t. t.sent) (raise_if-quiet (is_invalid_profile name) ControlError.invalid_profile s))
      λ u _.
        after_quiet P listed _ (valid s).1 (list_profiles-quiet cfg c clock m.id (valid s).1)
          λ v fetched.
            chosen-Sends c clock m name role v (listed (valid s).1).1
              (list_profiles-fresh cfg c clock m.id (valid s).1 fetched)
