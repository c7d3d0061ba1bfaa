-- ===== src/Luxos/Locks.antt =====
-- pocisys-hash-monitor/services/luxos_control.py: what the actions do to the locks and to the noted
-- attempts.
use gauge_umbrel_community.Prelude.{
  ℕ, ◌≡◌, refl, Bool, Bool-cases, true, false, Option, none, some, List, [], ◌∷◌, Text, arith,
  strip, map, ◌∙◌, inl, inr,
}
use gauge_umbrel_community.Luxos.State.{
  Target, Miner, Config, Action, Profile, Catalog, ControlError, Command, Message, reboot,
  profileset, board_restarted, board_started, board_stopped, slept, boards_started, Service,
}
use gauge_umbrel_community.Luxos.Monad.{
  Result, ok, err, Method, pure, or_raise, ◌>>=◌, ◌>>◌, raise_if, modify, continue,
}
use gauge_umbrel_community.Luxos.Client.{
  Client, board_count, send_all, session_batch, set_profile_command, range_from, set_boards,
  restart_board,
}
use gauge_umbrel_community.Luxos.Profiles.{
  find_profile, assert_low_not_above_normal, list_profiles, observe_after_profile_change,
  check_role, apply_profile, is_invalid_profile, set_profile, restore_boards, restore_full,
}
use gauge_umbrel_community.Luxos.Execute.{
  Clock, check_board, suppress_board, start_board, stop_board, curtail, perform,
}
use gauge_umbrel_community.Luxos.Ceiling.Actions.{check_board-quiet}

-- No lock and no attempt has changed.
pub record IsKept (s s' : Service) : Type 0 where
  pub lock : s'.locked ≡ s.locked
  pub attempt : s'.last_action_attempt ≡ s.last_action_attempt

abbrev same : (s : Service) → IsKept s s
same s = record { lock = refl; attempt = refl }

IsKept-trans : (s t u : Service) → IsKept s t → IsKept t u → IsKept s u
IsKept-trans s t u x y = record { lock = y.lock ∙ x.lock; attempt = y.attempt ∙ x.attempt }

-- A method that leaves the locks and the attempts alone, whatever it answers.
abbrev pub Keeps : {A : Type 0} → Method A → Type 0
Keeps m = (s : Service) → IsKept s (m s).1

Keeps-bind :
    {A B : Type 0} (m : Method A) (f : A → Method B)
    → Keeps m
    → ((a : A) → Keeps (f a))
    → Keeps (m >>= f)
Keeps-bind {A} {B} m f x y s = go (m s) (x s)
  where
    go : (r : Result A × Service) → IsKept s r.1 → IsKept s (continue f r).1
    go (ok a, t) k = IsKept-trans s t (f a t).1 k (y a t)
    go (err e, t) k = k

Keeps-raise_if : (t : Bool) (e : ControlError) → Keeps (raise_if t e)
Keeps-raise_if true e s = same s
Keeps-raise_if false e s = same s

Keeps-or_raise : {A : Type 0} (e : ControlError) (o : Option A) → Keeps (or_raise e o)
Keeps-or_raise e none s = same s
Keeps-or_raise e (some a) s = same s

Keeps-board_count : (c : Client) → Keeps (board_count c)
unfolding board_count
Keeps-board_count c s = record { lock = ground arith; attempt = ground arith }

Keeps-send_all : (c : Client) (id : ℕ) (xs : List Command) → Keeps (send_all c id xs)
unfolding send_all
Keeps-send_all c id [] s = same s
Keeps-send_all c id (x ∷ xs) s =
    let s' = record s { sent = (id, x) ∷ s.sent } in
    let kept : IsKept s s' = record { lock = refl; attempt = refl } in
    elim (Bool-cases (c.accepts x)) [
      | inl yes' ↦ rw yes' (IsKept-trans s s' _ kept (Keeps-send_all c id xs s'))
      | inr no' ↦ rw no' kept
    ]

Keeps-session_batch : (c : Client) (id : ℕ) (xs : List Command) → Keeps (session_batch c id xs)
unfolding session_batch
Keeps-session_batch c id xs s = elim (Bool-cases c.logon) [
  | inl free ↦ rw free (Keeps-send_all c id xs s)
  | inr taken ↦ rw taken (same s)
]

Keeps-set_boards : (c : Client) (id : ℕ) (bs : List ℕ) (d : ℕ) → Keeps (set_boards c id bs d)
unfolding set_boards
Keeps-set_boards c id [] d s = same s
Keeps-set_boards c id (b ∷ bs) d s = Keeps-session_batch c id (map (λ x. reboot x d) (b ∷ bs)) s

Keeps-check_board : (c : Client) (b : ℕ) → Keeps (check_board c b)
Keeps-check_board c b s = rw (check_board-quiet c b s) (same s)

Keeps-restart_board : (c : Client) (id b d : ℕ) → Keeps (restart_board c id b d)
unfolding restart_board
Keeps-restart_board c id b d = Keeps-session_batch c id (reboot b d ∷ [])

Keeps-start_board :
    (c : Client) (k : Clock) (id b : ℕ) (message : Message) → Keeps (start_board c k id b message)
unfolding start_board
Keeps-start_board c k id b message =
    Keeps-bind (check_board c b)
      (λ _. restart_board c id b 10 >> (modify (suppress_board k.later id b) >> pure message))
      (Keeps-check_board c b)
      (λ _.
        Keeps-bind (restart_board c id b 10)
          (λ _. modify (suppress_board k.later id b) >> pure message)
          (Keeps-restart_board c id b 10) (λ _ s. record { lock = refl; attempt = refl }))

Keeps-stop_board : (c : Client) (id b : ℕ) → Keeps (stop_board c id b)
unfolding stop_board
Keeps-stop_board c id b =
    Keeps-bind (check_board c b) (λ _. restart_board c id b 0 >> pure (board_stopped b))
      (Keeps-check_board c b)
      (λ _.
        Keeps-bind (restart_board c id b 0) (λ _. pure (board_stopped b))
          (Keeps-restart_board c id b 0) (λ _ s. same s))

Keeps-list_profiles :
    (cfg : Config) (c : Client) (clock id : ℕ) (force : Bool)
    → Keeps (list_profiles cfg c clock id force)
unfolding list_profiles
Keeps-list_profiles cfg c clock id force s = record { lock = ground arith; attempt = ground arith }

Keeps-check_role :
    (m : Miner) (ps : List Profile) (name : Text) (role : Target)
    → Keeps (check_role m ps name role)
unfolding check_role assert_low_not_above_normal
Keeps-check_role m ps name Target.full s = record { lock = ground arith; attempt = ground arith }
Keeps-check_role m ps name Target.low s = record { lock = ground arith; attempt = ground arith }

Keeps-apply_profile :
    (c : Client) (clock : ℕ) (m : Miner) (available : Catalog) (name : Text)
    → Keeps (apply_profile c clock m available name)
unfolding apply_profile set_profile_command observe_after_profile_change
Keeps-apply_profile c clock m available name s =
    let kept = Keeps-session_batch c m.id (profileset name ∷ []) s in
    record { lock = ground (arith, kept.lock); attempt = ground (arith, kept.attempt) }

Keeps-set_profile :
    (cfg : Config) (c : Client) (clock : ℕ) (m : Miner) (profile : Text) (role : Target)
    → Keeps (set_profile cfg c clock m profile role)
unfolding set_profile
Keeps-set_profile cfg c clock m profile role =
    let name = strip profile in
    let apply : Catalog → Method Message = λ a. apply_profile c clock m a name in
    let check : Catalog → Method Message = λ a. check_role m a.profiles name role >> apply a in
    let find : Catalog → Method Message =
      λ a. or_raise ControlError.unavailable_profile (find_profile name a.profiles) >> check a in
    Keeps-bind (raise_if (is_invalid_profile name) ControlError.invalid_profile)
      (λ _. list_profiles cfg c clock m.id true >>= find) (Keeps-raise_if _ _)
      (λ _.
        Keeps-bind (list_profiles cfg c clock m.id true) find
          (Keeps-list_profiles cfg c clock m.id true)
          (λ a.
            Keeps-bind (or_raise ControlError.unavailable_profile (find_profile name a.profiles))
              (λ _. check a) (Keeps-or_raise _ (find_profile name a.profiles))
              (λ _.
                Keeps-bind (check_role m a.profiles name role) (λ _. apply a)
                  (Keeps-check_role m a.profiles name role)
                  (λ _. Keeps-apply_profile c clock m a name))))

Keeps-restore_boards :
    (cfg : Config) (c : Client) (clock : ℕ) (m : Miner) (name : Text)
    → Keeps (restore_boards cfg c clock m name)
unfolding restore_boards observe_after_profile_change
Keeps-restore_boards cfg c clock m name =
    let observe = modify (observe_after_profile_change clock m.id) in
    let finish : ℕ → Message → Method Message = λ n x. observe >> pure (boards_started n x) in
    let boards : ℕ → Message → Method Message =
      λ n x. set_boards c m.id (range_from 0 n) 10 >> finish n x in
    Keeps-bind (board_count c) (λ n. set_profile cfg c clock m name Target.full >>= boards n)
      (Keeps-board_count c)
      (λ n.
        Keeps-bind (set_profile cfg c clock m name Target.full) (boards n)
          (Keeps-set_profile cfg c clock m name Target.full)
          (λ x.
            Keeps-bind (set_boards c m.id (range_from 0 n) 10) (λ _. finish n x)
              (Keeps-set_boards c m.id (range_from 0 n) 10)
              (λ _ s. record { lock = refl; attempt = refl })))

Keeps-restore_full :
    (cfg : Config) (c : Client) (clock : ℕ) (m : Miner) → Keeps (restore_full cfg c clock m)
unfolding restore_full
Keeps-restore_full cfg c clock m s =
    let by_profile = Keeps-set_profile cfg c clock m (strip m.full_profile) Target.full s in
    let by_boards = Keeps-restore_boards cfg c clock m (strip m.full_profile) s in
    record {
      lock = ground (arith, by_profile.lock, by_boards.lock);
      attempt = ground (arith, by_profile.attempt, by_boards.attempt);
    }

Keeps-curtail : (cfg : Config) (c : Client) (k : Clock) (m : Miner) → Keeps (curtail cfg c k m)
unfolding curtail
Keeps-curtail cfg c k m s =
    let by_profile = Keeps-set_profile cfg c k.later m m.low_profile Target.low s in
    let by_boards =
      Keeps-bind (board_count c) (λ n. set_boards c m.id (range_from 0 n) 0 >> pure (slept n))
        (Keeps-board_count c)
        (λ n.
          Keeps-bind (set_boards c m.id (range_from 0 n) 0) (λ _. pure (slept n))
            (Keeps-set_boards c m.id (range_from 0 n) 0) (λ _ t. same t))
        s in
    record {
      lock = ground (arith, by_profile.lock, by_boards.lock);
      attempt = ground (arith, by_profile.attempt, by_boards.attempt);
    }

-- Whatever an action does, it leaves every lock and every noted attempt alone until it ends.
pub perform-IsKept :
    (cfg : Config) (c : Client) (k : Clock) (m : Miner) (a : Action) (b : ℕ)
    → Keeps (perform cfg c k m a b)
unfolding perform
perform-IsKept cfg c k m Action.restart_board b = Keeps-start_board c k m.id b (board_restarted b)
perform-IsKept cfg c k m Action.board_off b = Keeps-stop_board c m.id b
perform-IsKept cfg c k m Action.board_on b = Keeps-start_board c k m.id b (board_started b)
perform-IsKept cfg c k m Action.low b = Keeps-curtail cfg c k m
perform-IsKept cfg c k m Action.full b = Keeps-restore_full cfg c k.later m
perform-IsKept cfg c k m Action.unsupported b = same
