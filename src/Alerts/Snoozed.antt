-- ===== src/Alerts/Snoozed.antt =====
-- pocisys-hash-monitor/services/alerts.py: what a snooze holds back.
use gauge_umbrel_community.Prelude.{
  ℕ, ◌<◌, ◌≡◌, ap, ◌∙◌, ◌++◌, All, [], inl, inr, refl, Bool, true, false, List, ◌∷◌, arith,
  Bool-cases,
}
use gauge_umbrel_community.Alerts.State.{Kind, Alert, AlertConfig, MinerStatus, AlertEngine, Times}
use gauge_umbrel_community.Alerts.Miner.{evaluate_miner}
use gauge_umbrel_community.Alerts.Preserved.{evaluate_miner_keeps}
use gauge_umbrel_community.Alerts.Emit.{
  record_entry, snooze_remaining, snooze_status, note_alert, deliver, emit_refuses, emit, emit_if,
}

remaining_pos : (now : ℕ) (e : AlertEngine) → now < e.snooze_until → 0 < snooze_remaining now e
unfolding snooze_remaining
remaining_pos now e h = ground arith

-- The snooze lasts until `u`, and what Discord was handed since `old` may bypass it.
abbrev pub IsHeld : ℕ → List Alert → AlertEngine → Type 0
IsHeld u old e =
    (e.snooze_until ≡ u)
    × ((new : List Alert) × ((e.sends ≡ new ++ old) × All (λ a. a.bypass_snooze ≡ true) new))

deliver_routine :
    (a : Alert) (now : ℕ) (e : AlertEngine)
    → a.bypass_snooze ≡ false
    → now < e.snooze_until
    → ((deliver a now e).snooze_until ≡ e.snooze_until) × ((deliver a now e).sends ≡ e.sends)
unfolding deliver snooze_status
deliver_routine a now e b h = ground (arith, remaining_pos now e h)

deliver_bypass :
    (a : Alert) (now : ℕ) (e : AlertEngine)
    → a.bypass_snooze ≡ true
    → now < e.snooze_until
    → ((deliver a now e).snooze_until ≡ e.snooze_until) × ((deliver a now e).sends ≡ a ∷ e.sends)
unfolding deliver snooze_status
deliver_bypass a now e b h = ground (arith, remaining_pos now e h)

deliver-IsHeld :
    (u : ℕ) (old : List Alert) (a : Alert) (now : ℕ) (e : AlertEngine)
    → now < u
    → IsHeld u old e
    → IsHeld u old (deliver a now e)
deliver-IsHeld u old a now e h (until, (new, (sent, free))) = elim (Bool-cases a.bypass_snooze) [
  | inl bypass ↦
      let d = deliver_bypass a now e bypass within in
      (d.0 ∙ until, (a ∷ new, (d.1 ∙ ap (λ xs. a ∷ xs) sent, (bypass, free))))
  | inr routine ↦
      let d = deliver_routine a now e routine within in (d.0 ∙ until, (new, (d.1 ∙ sent, free)))
]
  where
    within : now < e.snooze_until
    within = omega (arith, until, h)

emit_if-IsHeld :
    (u : ℕ) (old : List Alert) (c : Bool) (cfg : AlertConfig) (a : Alert) (t : Times)
    (e : AlertEngine)
    → t.snooze < u
    → IsHeld u old e
    → IsHeld u old (emit_if c cfg a t e).1
unfolding emit_if emit note_alert record_entry
emit_if-IsHeld u old false cfg a t e h held = held
emit_if-IsHeld u old true cfg a t e h held = elim (Bool-cases (emit_refuses cfg a t e)) [
  | inl refused ↦ rw refused held
  | inr emitted ↦ rw emitted (deliver-IsHeld u old a t.snooze (note_alert a t.sent e) h held)
]

-- While every reading of the clock lies before the end of the snooze, `evaluate_miner` keeps the
-- snooze, and every alert that it hands to Discord is one that bypasses the snooze.
pub evaluate_miner-IsHeld :
    (cfg : AlertConfig) (now : ℕ) (clock : Kind → Times) (s : MinerStatus) (e : AlertEngine)
    → ((k : Kind) → (clock k).snooze < e.snooze_until)
    → IsHeld e.snooze_until e.sends (evaluate_miner cfg now clock s e)
evaluate_miner-IsHeld cfg now clock s e h =
    evaluate_miner_keeps (IsHeld e.snooze_until e.sends) cfg clock
      (λ c a k f held. emit_if-IsHeld e.snooze_until e.sends c cfg a (clock k) f (h k) held)
      (λ k p f held. held) (λ k b f held. held) now s e (refl, ([], (refl, tt)))
