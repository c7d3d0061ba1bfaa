-- ===== src/Luxos/Cooldown.antt =====
-- pocisys-hash-monitor/services/luxos_control.py: between two actions on a miner lie fifteen
-- seconds, and no two run at once, while the configuration keeps the miner.
use gauge_umbrel_community.Prelude.{
  ◌==◌, ℕ, ◌+◌, ◌≤◌, ◌<◌, ◌≡◌, ◌⊎◌, inl, inr, refl, Bool, true, false, Option, none, some, List,
  any, arith, subst, sym, ◌∙◌,
}
use mathlib.Core.Bool.{false≢true}
use native.Mathlib.Nat.{le_refl}
use gauge_umbrel_community.Luxos.State.{
  Miner, Config, Source, Action, Message, ControlError, Service,
}
use gauge_umbrel_community.Luxos.Monad.{ok, err, Result}
use gauge_umbrel_community.Luxos.Execute.{
  Clock, is_too_soon, begin_action, perform, end_action, record_action,
}
use gauge_umbrel_community.Luxos.Locks.{IsKept, perform-IsKept}
use gauge_umbrel_community.Luxos.Client.{Client}
use gauge_umbrel_community.Luxos.Recovery.{reconfigure}
use gauge_umbrel_community.Luxos.Reconfigure.{is_active, reconfigure_present}
use gauge_umbrel_community.Luxos.Execute.Guards.{Passes, begun, begin_action-cases}

-- What the tasks of the event loop may do to the service while the clock advances from `t`: begin an
-- action on any miner, noting a clock read at or after `t`; send the requests of an action and keep
-- its results; end an action, that of the miner only if `finishes`; change the configuration to one in
-- which the miner is an enabled LuxOS miner; or change fields that hold neither locks nor attempts.
-- A configuration without the miner drops both, and is no such step.
pub data Meanwhile (cfg : Config) (id t : ℕ) (finishes : Bool) (s s' : Service) : Type 0 where
  start :
      (k : Clock) (j : ℕ) (source : Source) (m : Miner)
      → t ≤ k.locked_at
      → begin_action cfg k j source s ≡ (ok m, s')
      → Meanwhile cfg id t finishes s s'
  act :
      (c : Client) (k : Clock) (m : Miner) (a : Action) (b : ℕ)
      → s' ≡ (perform cfg c k m a b s).1
      → Meanwhile cfg id t finishes s s'
  finish :
      (j : ℕ) (a : Action) (source : Source) (r : Result Message)
      → (j == id ≡ false) ⊎ (finishes ≡ true)
      → s' ≡ (end_action cfg j a source (r, s)).1
      → Meanwhile cfg id t finishes s s'
  reconfigured :
      (ms : List Miner)
      → any (is_active id) ms ≡ true
      → s' ≡ reconfigure ms s
      → Meanwhile cfg id t finishes s s'
  other : IsKept s s' → Meanwhile cfg id t finishes s s'

pub data Later (cfg : Config) (id t : ℕ) (finishes : Bool) (s : Service) : Service → Type 0 where
  here : Later cfg id t finishes s s
  next :
      {u w : Service}
      → Later cfg id t finishes s u
      → Meanwhile cfg id t finishes u w
      → Later cfg id t finishes s w

-- The last attempt on the miner was at `t` or later.
abbrev IsAttempted : ℕ → Option ℕ → Type 0
IsAttempted t none = ⊥
IsAttempted t (some a) = t ≤ a

-- A successful begin has found the state that `begun` describes.
begin_action-ok :
    (cfg : Config) (k : Clock) (id : ℕ) (source : Source) (s : Service) {s' : Service} {m : Miner}
    → begin_action cfg k id source s ≡ (ok m, s')
    → (s' ≡ begun k id s) × (s.locked id ≡ false)
begin_action-ok cfg k id source s {s'} {m} e = elim (begin_action-cases cfg k id source s) [
  | inl (x, refused) ↦ cc
  | inr (n, passed, guards) ↦ (cc, guards.unlocked)
]

begun-IsAttempted :
    (k : Clock) (j id t : ℕ) (s : Service)
    → t ≤ k.locked_at
    → (j ≡ id) ⊎ IsAttempted t (s.last_action_attempt id)
    → IsAttempted t ((begun k j s).last_action_attempt id)
begun-IsAttempted k j id t s le h = ground arith

kept-IsAttempted :
    (id t : ℕ) (s s' : Service)
    → IsKept s s'
    → IsAttempted t (s.last_action_attempt id)
    → IsAttempted t (s'.last_action_attempt id)
kept-IsAttempted id t s s' kept h = subst (λ g. IsAttempted t (g id)) (sym kept.attempt) h

kept-locked : (id : ℕ) (s s' : Service) → IsKept s s' → s.locked id ≡ true → s'.locked id ≡ true
kept-locked id s s' kept h = subst (λ g. g id ≡ true) (sym kept.lock) h

end_action-attempt :
    (cfg : Config) (j : ℕ) (a : Action) (source : Source) (r : Result Message) (s : Service)
    → (end_action cfg j a source (r, s)).1.last_action_attempt ≡ s.last_action_attempt
unfolding end_action record_action
end_action-attempt cfg j a source (ok x) s = ground arith
end_action-attempt cfg j a source (err e) s = ground arith

end_action-locked :
    (cfg : Config) (j id : ℕ) (a : Action) (source : Source) (r : Result Message) (s : Service)
    → (j == id) ≡ false
    → s.locked id ≡ true
    → (end_action cfg j a source (r, s)).1.locked id ≡ true
unfolding end_action record_action
end_action-locked cfg j id a source (ok x) s another h = ground arith
end_action-locked cfg j id a source (err e) s another h = ground arith

Meanwhile-IsAttempted :
    {cfg : Config} {id t : ℕ} {f : Bool} {s s' : Service}
    → Meanwhile cfg id t f s s'
    → IsAttempted t (s.last_action_attempt id)
    → IsAttempted t (s'.last_action_attempt id)
Meanwhile-IsAttempted {cfg} {id} {t} {f} {s} {s'} (start k j source m le e) h =
    subst (λ x. IsAttempted t (x.last_action_attempt id))
      (sym (begin_action-ok cfg k j source s e).0) (begun-IsAttempted k j id t s le (inr h))
Meanwhile-IsAttempted {cfg} {id} {t} {f} {s} (act c k m a b e) h =
    subst (λ x. IsAttempted t (x.last_action_attempt id)) (sym e)
      (kept-IsAttempted id t s _ (perform-IsKept cfg c k m a b s) h)
Meanwhile-IsAttempted {cfg} {id} {t} {f} {s} (finish j a source r ends e) h =
    subst (λ x. IsAttempted t (x.last_action_attempt id)) (sym e)
      (subst (λ g. IsAttempted t (g id)) (sym (end_action-attempt cfg j a source r s)) h)
Meanwhile-IsAttempted {cfg} {id} {t} {f} {s} (reconfigured ms kept e) h =
    subst (λ x. IsAttempted t (x.last_action_attempt id)) (sym e)
      (subst (IsAttempted t) (sym (reconfigure_present id ms s kept).1) h)
Meanwhile-IsAttempted {cfg} {id} {t} {f} {s} {s'} (other kept) h = kept-IsAttempted id t s s' kept h

Later-IsAttempted :
    {cfg : Config} {id t : ℕ} {f : Bool} {s s' : Service}
    → Later cfg id t f s s'
    → IsAttempted t (s.last_action_attempt id)
    → IsAttempted t (s'.last_action_attempt id)
Later-IsAttempted here h = h
Later-IsAttempted (next l x) h = Meanwhile-IsAttempted x (Later-IsAttempted l h)

begun-locked :
    (k : Clock) (j id : ℕ) (s : Service)
    → (j ≡ id) ⊎ (s.locked id ≡ true)
    → (begun k j s).locked id ≡ true
begun-locked k j id s h = ground arith

Meanwhile-locked :
    {cfg : Config} {id t : ℕ} {s s' : Service}
    → Meanwhile cfg id t false s s'
    → s.locked id ≡ true
    → s'.locked id ≡ true
Meanwhile-locked {cfg} {id} {t} {s} {s'} (start k j source m le e) h =
    subst (λ x. x.locked id ≡ true) (sym (begin_action-ok cfg k j source s e).0)
      (begun-locked k j id s (inr h))
Meanwhile-locked {cfg} {id} {t} {s} (act c k m a b e) h =
    subst (λ x. x.locked id ≡ true) (sym e) (kept-locked id s _ (perform-IsKept cfg c k m a b s) h)
Meanwhile-locked {cfg} {id} {t} {s} (finish j a source r (inl another) e) h =
    subst (λ x. x.locked id ≡ true) (sym e) (end_action-locked cfg j id a source r s another h)
Meanwhile-locked (finish j a source r (inr ends) e) h = cc
Meanwhile-locked {cfg} {id} {t} {s} (reconfigured ms kept e) h =
    subst (λ x. x.locked id ≡ true) (sym e) ((reconfigure_present id ms s kept).0 ∙ h)
Meanwhile-locked {cfg} {id} {t} {s} {s'} (other kept) h = kept-locked id s s' kept h

Later-locked :
    {cfg : Config} {id t : ℕ} {s s' : Service}
    → Later cfg id t false s s'
    → s.locked id ≡ true
    → s'.locked id ≡ true
Later-locked here h = h
Later-locked (next l x) h = Meanwhile-locked x (Later-locked l h)

-- Guards that do not pass change nothing.
refused_unless :
    (cfg : Config) (k : Clock) (id : ℕ) (source : Source) (s : Service)
    → ((m : Miner) → Passes cfg k id source s m → ⊥)
    → (e : ControlError) × (begin_action cfg k id source s ≡ (err e, s))
refused_unless cfg k id source s never = elim (begin_action-cases cfg k id source s) [
  | inl refused ↦ refused
  | inr (m, passed, guards) ↦ absurd (never m guards)
]

attempted_too_soon :
    (t now : ℕ) (o : Option ℕ) → IsAttempted t o → now < t + 15000 → is_too_soon now o ≡ true
attempted_too_soon t now none h lt = absurd h
attempted_too_soon t now (some a) h lt = ground arith

-- Once an action on a miner has begun at `t`, no other begins on that miner before `t` plus fifteen
-- seconds, whatever actions begin, run and end in between, as long as every change of the configuration
-- keeps the miner an enabled LuxOS miner, and nothing else changes locks or attempts.
pub begin_again_too_soon :
    (cfg : Config) (k k' : Clock) (id : ℕ) (source source' : Source) (m : Miner) (s₀ : Service)
    {s s' : Service}
    → begin_action cfg k id source s₀ ≡ (ok m, s)
    → Later cfg id k.locked_at true s s'
    → k'.now < k.locked_at + 15000
    → (e : ControlError) × (begin_action cfg k' id source' s' ≡ (err e, s'))
begin_again_too_soon cfg k k' id source source' m s₀ {s} {s'} e l soon =
    refused_unless cfg k' id source' s' λ n guards.
      let attempted : IsAttempted k.locked_at (s.last_action_attempt id) =
        subst (λ x. IsAttempted k.locked_at (x.last_action_attempt id))
          (sym (begin_action-ok cfg k id source s₀ e).0)
          (begun-IsAttempted k id id k.locked_at s₀ (le_refl k.locked_at) (inl refl)) in
      let early : is_too_soon k'.now (s'.last_action_attempt id) ≡ true =
        attempted_too_soon k.locked_at k'.now (s'.last_action_attempt id)
          (Later-IsAttempted l attempted) soon in
      false≢true (sym guards.rested ∙ early)

-- While an action on a miner has begun and not ended, no other begins on that miner, however long it
-- takes and whatever actions begin, run and end on other miners, as long as every change of the
-- configuration keeps the miner an enabled LuxOS miner, and nothing else changes locks or attempts.
pub begin_again_busy :
    (cfg : Config) (k k' : Clock) (id : ℕ) (source source' : Source) (m : Miner) (s₀ : Service)
    {s s' : Service}
    → begin_action cfg k id source s₀ ≡ (ok m, s)
    → Later cfg id k.locked_at false s s'
    → (e : ControlError) × (begin_action cfg k' id source' s' ≡ (err e, s'))
begin_again_busy cfg k k' id source source' m s₀ {s} {s'} e l =
    refused_unless cfg k' id source' s' λ n guards.
      let locked : s.locked id ≡ true =
        subst (λ x. x.locked id ≡ true) (sym (begin_action-ok cfg k id source s₀ e).0)
          (begun-locked k id id s₀ (inl refl)) in
      false≢true (sym guards.unlocked ∙ Later-locked l locked)
