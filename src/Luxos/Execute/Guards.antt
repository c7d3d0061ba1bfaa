-- ===== src/Luxos/Execute/Guards.antt =====
-- pocisys-hash-monitor/services/luxos_control.py: the guards of `execute`, the lock and the cooldown.
use gauge_umbrel_community.Prelude.{
  ℕ, ◌≡◌, ◌⊎◌, inl, inr, true, false, some, List, [], ◌∷◌, ◌==◌, arith, if◌then◌else◌, Bool-cases,
  Option-cases, put,
}
use gauge_umbrel_community.Luxos.State.{Miner, Config, Action, Source, ControlError, Service}
use gauge_umbrel_community.Luxos.Monad.{ok, err}
use gauge_umbrel_community.Luxos.Client.{Client}
use gauge_umbrel_community.Luxos.Profiles.{find_miner}
use gauge_umbrel_community.Luxos.Execute.{
  Clock, is_armed, unarmed, is_too_soon, begin_action, perform, end_action, execute,
}

-- What the guards demand of the configuration and the state.
pub record Passes (cfg : Config) (k : Clock) (id : ℕ) (source : Source) (s : Service) (m : Miner)
    : Type 0 where
  pub found : find_miner id cfg.miners ≡ some m
  pub enabled : cfg.control_enabled ≡ true
  pub armed : is_armed source m ≡ true
  pub rested : is_too_soon k.now (s.last_action_attempt id) ≡ false
  pub unlocked : s.locked id ≡ false

-- The state in which an action runs.
abbrev pub begun : Clock → ℕ → Service → Service
begun k id s = record s {
  locked = λ j. if j == id then true else s.locked j;
  last_action_attempt = put id k.locked_at s.last_action_attempt;
}

-- The guards raise and change nothing, or they all hold.
pub begin_action-cases :
    (cfg : Config) (k : Clock) (id : ℕ) (source : Source) (s : Service)
    → ((e : ControlError) × (begin_action cfg k id source s ≡ (err e, s)))
      ⊎ ((m : Miner) × (begin_action cfg k id source s ≡ (ok m, begun k id s))
          × Passes cfg k id source s m)
unfolding begin_action
begin_action-cases cfg k id source s = elim (Option-cases (find_miner id cfg.miners)) [
  | inl e ↦ inl (ControlError.not_found, rw e)
  | inr (m, e) ↦ elim (Bool-cases cfg.control_enabled) [
    | inr off ↦ inl (ControlError.control_disabled, rw (e, off))
    | inl on ↦ elim (Bool-cases (is_armed source m)) [
      | inr bare ↦ inl (unarmed source, rw (e, on, bare))
      | inl armed ↦ elim (Bool-cases (is_too_soon k.now (s.last_action_attempt id))) [
        | inl soon ↦ inl (ControlError.too_soon, rw (e, on, armed, soon))
        | inr rested ↦ elim (Bool-cases (s.locked id)) [
          | inl held ↦ inl (ControlError.busy, rw (e, on, armed, rested, held))
          | inr unlocked ↦ inr (
            m,
            rw (e, on, armed, rested, unlocked),
            record { found = e; enabled = on; armed = armed; rested = rested; unlocked = unlocked },
          )
        ]
      ]
    ]
  ]
]

-- `execute` raises and changes nothing, or its guards hold and the action has run.
pub execute-cases :
    (cfg : Config) (c : Client) (k : Clock) (id : ℕ) (a : Action) (board : ℕ) (source : Source)
    (s : Service)
    → ((e : ControlError) × (execute cfg c k id a board source s ≡ (err e, s)))
      ⊎ ((m : Miner) × (execute cfg c k id a board source s
            ≡ end_action cfg id a source (perform cfg c k m a board (begun k id s)))
          × Passes cfg k id source s m)
unfolding execute
execute-cases cfg c k id a board source s = elim (begin_action-cases cfg k id source s) [
  | inl (e, refused) ↦ inl (e, rw refused)
  | inr (m, passed, guards) ↦ inr (m, rw passed, guards)
]

-- The same miner is found by its own id only where it is enabled and a LuxOS miner.
pub find_miner-eq-some :
    (id : ℕ) (ms : List Miner) {m : Miner}
    → find_miner id ms ≡ some m
    → (m.enabled ≡ true) × (m.is_luxos ≡ true) × (m.id ≡ id)
unfolding find_miner
find_miner-eq-some id [] e = cc
find_miner-eq-some id (x ∷ ms) {m} e = ground (arith, find_miner-eq-some id ms {m = m})
