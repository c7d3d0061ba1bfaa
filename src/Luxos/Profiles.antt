-- ===== src/Luxos/Profiles.antt =====
-- pocisys-hash-monitor/services/luxos_control.py: the profile catalog, the comparison of two
-- profiles, `_set_profile` and `_restore_full`.
use gauge_umbrel_community.Prelude.{
  ℕ, ◌+◌, Bool, true, false, not, ◌&&◌, ◌||◌, Option, none, some, List, [], ◌∷◌, Text, ℤ, ltb,
  ltb_ℤ, ◌==◌, if◌then◌else◌, length, any, is_empty, text_eq, strip, put, get_or,
}
use gauge_umbrel_community.Luxos.State.{
  LowMode, Target, low, full, Miner, Config, Profile, Catalog, Snapshot, ControlError, Message,
  already_active, applied, boards_started, Service,
}
use gauge_umbrel_community.Luxos.Monad.{
  Result, ok, err, Method, pure, raise, or_raise, ◌>>=◌, ◌>>◌, raise_if, modify,
}
use gauge_umbrel_community.Luxos.Client.{
  Client, board_count, set_profile_command, set_boards, range_from,
}

-- `_miner`: the first enabled LuxOS miner with this id.
unfoldable pub find_miner : ℕ → List Miner → Option Miner
find_miner id [] = none
find_miner id (m ∷ ms) = if m.enabled && m.is_luxos && m.id == id then some m else find_miner id ms

-- The profile of this name in `{item.get("name"): item for …}`: the last one.
unfoldable pub find_profile : Text → List Profile → Option Profile
find_profile name [] = none
find_profile name (p ∷ ps) = elim (find_profile name ps) [
  | some q ↦ some q
  | none ↦ if text_eq p.name name then some p else none
]

-- The sign of `(low > normal) - (low < normal)`.
pub data Level : Type 0 where
  below same above : Level

abbrev pub compare_values : ℤ → ℤ → Level
compare_values a b =
    if ltb_ℤ b a then Level.above else if ltb_ℤ a b then Level.below else Level.same

-- One key of the loop: the answer where both profiles report it, and else that of the later keys.
abbrev pub compare_key : Option ℤ → Option ℤ → Option Level → Option Level
compare_key (some a) (some b) later = some (compare_values a b)
compare_key (some a) none later = later
compare_key none b later = later

-- `_profile_value`
abbrev pub profile_value : (Profile → Option ℤ) → Option Profile → Option ℤ
profile_value key none = none
profile_value key (some p) = key p

unfoldable pub compare_profile_level : Option Profile → Option Profile → Option Level
compare_profile_level a b =
    let by =
      λ (key : Profile → Option ℤ). compare_key (profile_value key a) (profile_value key b) in
    by (λ p. p.watts) (by (λ p. p.hashrate) (by (λ p. p.frequency) (by (λ p. p.step) none)))

-- `_assert_low_not_above_normal`
unfoldable pub assert_low_not_above_normal : Option Profile → Option Profile → Method (Unit {0})
unfolding compare_profile_level
assert_low_not_above_normal a b = elim (compare_profile_level a b) [
  | none ↦ raise ControlError.unproved_level
  | some Level.above ↦ raise ControlError.above_normal
  | some Level.same ↦ pure tt
  | some Level.below ↦ pure tt
]

-- `list_profiles`, with the clock that it reads.
unfoldable pub list_profiles : Config → Client → ℕ → ℕ → Bool → Method Catalog
unfolding find_miner
list_profiles cfg c clock id force s =
    let fetched : Result Catalog × Service = elim c.profiles [
      | none ↦ (err ControlError.client, s)
      | some v ↦ (
        ok v,
        record s { profile_cache = put id (record { at = clock; value = v }) s.profile_cache },
      )
    ] in
    elim (find_miner id cfg.miners) [
      | none ↦ (err ControlError.not_found, s)
      | some m ↦ elim (s.profile_cache id) [
        | none ↦ fetched
        | some k ↦ if not force && ltb clock (k.at + 60000) then (ok k.value, s) else fetched
      ]
    ]

-- `_observe_after_profile_change`
unfoldable pub observe_after_profile_change : ℕ → ℕ → Service → Service
observe_after_profile_change clock id s = record s {
  profile_suppress_until = put id (clock + 600000) s.profile_suppress_until;
  bad_confirmations = λ i j.
      if i == id
      then elim (s.bad_confirmations i j) [ none ↦ none | some n ↦ some 0 ]
      else s.bad_confirmations i j;
}

abbrev pub empty_snapshot : Snapshot
empty_snapshot = record { boards = []; current_profile = []; failed = false }

-- `self.health_cache.setdefault(id, {})["current_profile"] = name`
abbrev pub note_profile : ℕ → Text → Service → Service
note_profile id name s = record s {
  health_cache =
      put id (record (get_or empty_snapshot (s.health_cache id)) { current_profile = name })
        s.health_cache;
}

-- The first test of `_set_profile`, on the stripped name.
abbrev pub is_invalid_profile : Text → Bool
is_invalid_profile name =
    is_empty name
    || ltb 80 (length name)
    || any (λ ch. ch == b',') name
    || any (λ ch. ltb ch 32) name

-- The tests of the two roles: the normal profile by its name, the curtailed one by its name and by
-- its level.
unfoldable pub check_role : Miner → List Profile → Text → Target → Method (Unit {0})
unfolding assert_low_not_above_normal
check_role m ps name full =
    raise_if (not (text_eq name (strip m.full_profile))) ControlError.outside_normal
check_role m ps name low = do
  raise_if (not (text_eq name (strip m.low_profile))) ControlError.outside_curtailed
  or_raise ControlError.unavailable_normal (find_profile (strip m.full_profile) ps)
  assert_low_not_above_normal (find_profile name ps) (find_profile (strip m.full_profile) ps)

-- The end of `_set_profile`: nothing to do, or the command and its observation period.
unfoldable pub apply_profile : Client → ℕ → Miner → Catalog → Text → Method Message
unfolding set_profile_command observe_after_profile_change
apply_profile c clock m available name =
    if text_eq (strip available.current) name
    then (do modify (note_profile m.id name); pure (already_active name))
    else (do
      set_profile_command c m.id name
      modify (note_profile m.id name)
      modify (observe_after_profile_change clock m.id)
      pure (applied name))

unfoldable pub set_profile : Config → Client → ℕ → Miner → Text → Target → Method Message
unfolding list_profiles check_role apply_profile
set_profile cfg c clock m profile role = do
  let name = strip profile
  raise_if (is_invalid_profile name) ControlError.invalid_profile
  available ← list_profiles cfg c clock m.id true
  or_raise ControlError.unavailable_profile (find_profile name available.profiles)
  check_role m available.profiles name role
  apply_profile c clock m available name

-- The branch of `_restore_full` for a miner whose hashboards are turned off.
unfoldable pub restore_boards : Config → Client → ℕ → Miner → Text → Method Message
unfolding set_profile board_count set_boards observe_after_profile_change
restore_boards cfg c clock m name = do
  count ← board_count c
  message ← set_profile cfg c clock m name full
  set_boards c m.id (range_from 0 count) 10
  modify (observe_after_profile_change clock m.id)
  pure (boards_started count message)

-- `_restore_full`
unfoldable pub restore_full : Config → Client → ℕ → Miner → Method Message
unfolding restore_boards
restore_full cfg c clock m =
    let name = strip m.full_profile in
    let by_profile = set_profile cfg c clock m name full in
    let by_boards = restore_boards cfg c clock m name in
    if is_empty name
    then raise ControlError.no_normal_profile
    else elim m.low_mode [ LowMode.boards_off ↦ by_boards | _ ↦ by_profile ]
