-- ===== src/Luxos/Reconfigure.antt =====
-- pocisys-hash-monitor/services/luxos_control.py, `reconfigure`: what it keeps and what it drops.
use gauge_umbrel_community.Prelude.{
  ℕ, ◌≡◌, refl, Bool, true, false, none, some, List, [], ◌∷◌, ◌&&◌, arith, ◌==◌, ◌∙◌, any,
}
use gauge_umbrel_community.Luxos.State.{Miner, Config, Source, Service}
use gauge_umbrel_community.Luxos.Monad.{ok}
use gauge_umbrel_community.Luxos.Profiles.{find_miner}
use gauge_umbrel_community.Luxos.Execute.{Clock, is_armed, begin_action}
use gauge_umbrel_community.Luxos.Execute.Guards.{begun}
use gauge_umbrel_community.Luxos.Recovery.{reconfigure}

abbrev pub is_active : ℕ → Miner → Bool
is_active id m = m.enabled && m.is_luxos && m.id == id

any-find_miner-none :
    (id : ℕ) (ms : List Miner) → find_miner id ms ≡ none → any (is_active id) ms ≡ false
unfolding find_miner
any-find_miner-none id [] e = refl
any-find_miner-none id (m ∷ ms) e = ground (arith, any-find_miner-none id ms)

any-find_miner-some :
    (id : ℕ) (ms : List Miner) {m : Miner}
    → find_miner id ms ≡ some m
    → any (is_active id) ms ≡ true
unfolding find_miner
any-find_miner-some id [] e = cc
any-find_miner-some id (x ∷ ms) {m} e = ground (arith, any-find_miner-some id ms {m = m})

reconfigure_absent :
    (id : ℕ) (ms : List Miner) (s : Service)
    → any (is_active id) ms ≡ false
    → ((reconfigure ms s).locked id ≡ false) × ((reconfigure ms s).last_action_attempt id ≡ none)
unfolding reconfigure
reconfigure_absent id ms s e = rw e (refl, refl)

pub reconfigure_present :
    (id : ℕ) (ms : List Miner) (s : Service)
    → any (is_active id) ms ≡ true
    → ((reconfigure ms s).locked id ≡ s.locked id)
      × ((reconfigure ms s).last_action_attempt id ≡ s.last_action_attempt id)
unfolding reconfigure
reconfigure_present id ms s e = rw e (refl, refl)

begin_fresh :
    (cfg : Config) (k : Clock) (id : ℕ) (source : Source) (m : Miner) (s : Service)
    → find_miner id cfg.miners ≡ some m
    → cfg.control_enabled ≡ true
    → is_armed source m ≡ true
    → s.locked id ≡ false
    → s.last_action_attempt id ≡ none
    → begin_action cfg k id source s ≡ (ok m, begun k id s)
unfolding begin_action
begin_fresh cfg k id source m s found on armed unlocked fresh =
    rw (found, on, armed, fresh, unlocked)

-- A miner that an update of the configuration takes away or disables, and a second one brings back,
-- has lost its lock and its cooldown: while an action that had begun before still runs, another
-- begins at once.
pub reconfigure_loses_lock :
    (cfg : Config) (ms : List Miner) (k k' : Clock) (id : ℕ) (source source' : Source) (m : Miner)
    (s : Service)
    → find_miner id cfg.miners ≡ some m
    → find_miner id ms ≡ none
    → cfg.control_enabled ≡ true
    → is_armed source' m ≡ true
    → begin_action cfg k id source s ≡ (ok m, begun k id s)
    → let s' = reconfigure cfg.miners (reconfigure ms (begun k id s)) in
      begin_action cfg k' id source' s' ≡ (ok m, begun k' id s')
reconfigure_loses_lock cfg ms k k' id source source' m s found gone on armed ran =
    let s₁ = reconfigure ms (begun k id s) in
    let (open', fresh) = reconfigure_absent id ms (begun k id s) (any-find_miner-none id ms gone) in
    let (same, same') =
      reconfigure_present id cfg.miners s₁ (any-find_miner-some id cfg.miners found) in
    begin_fresh cfg k' id source' m (reconfigure cfg.miners s₁) found on armed (same ∙ open')
      (same' ∙ fresh)
