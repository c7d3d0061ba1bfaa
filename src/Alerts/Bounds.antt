-- ===== src/Alerts/Bounds.antt =====
-- pocisys-hash-monitor/services/alerts.py: the bounds of the feed and of the cooldown keys.
use gauge_umbrel_community.Prelude.{
  ℕ, ◌≤◌, Bool, true, false, List, ◌∷◌, arith, Bool-cases, inl, inr, length, length-take,
}
use gauge_umbrel_community.Alerts.State.{
  Kind, Alert, AlertConfig, MinerStatus, FeedEntry, AlertEngine, Times, Sent,
}
use gauge_umbrel_community.Alerts.Emit.{
  record_entry, snooze_status, note_alert, deliver, emit_refuses, emit, emit_if, prune_cooldowns,
  put_sent, sort_newest,
}
use gauge_umbrel_community.Alerts.Miner.{evaluate_miner}
use gauge_umbrel_community.Alerts.Preserved.{evaluate_miner_keeps}

-- At most 25 entries of the feed, and at most 512 cooldown keys.
abbrev pub IsBounded : AlertEngine → Type 0
IsBounded e = (length e.alert_feed ≤ 25) × (length e.last_sent ≤ 512)

length-prune_cooldowns : (xs : List Sent) → length (prune_cooldowns xs) ≤ 512
unfolding prune_cooldowns
length-prune_cooldowns xs = ground (arith, length-take 512 (sort_newest xs))

record_entry-IsBounded :
    (x : FeedEntry) (e : AlertEngine) → length e.last_sent ≤ 512 → IsBounded (record_entry x e)
unfolding record_entry
record_entry-IsBounded x e h = (length-take 25 (x ∷ e.alert_feed), h)

deliver-IsBounded :
    (a : Alert) (now : ℕ) (e : AlertEngine) → IsBounded e → IsBounded (deliver a now e)
unfolding deliver snooze_status
deliver-IsBounded a now e h =
    ground (arith, record_entry-IsBounded FeedEntry.resumed (record e { snooze_until = 0 }) h.1)

note_alert-IsBounded : (a : Alert) (now : ℕ) (e : AlertEngine) → IsBounded (note_alert a now e)
unfolding note_alert record_entry
note_alert-IsBounded a now e = (
  length-take 25 (FeedEntry.emitted a ∷ e.alert_feed),
  length-prune_cooldowns (put_sent a.owner a.kind now e.last_sent),
)

emit_if-IsBounded :
    (c : Bool) (cfg : AlertConfig) (a : Alert) (t : Times) (e : AlertEngine)
    → IsBounded e
    → IsBounded (emit_if c cfg a t e).1
unfolding emit_if emit
emit_if-IsBounded false cfg a t e h = h
emit_if-IsBounded true cfg a t e h = elim (Bool-cases (emit_refuses cfg a t e)) [
  | inl refused ↦ rw refused h
  | inr emitted ↦
      rw emitted
        (deliver-IsBounded a t.snooze (note_alert a t.sent e) (note_alert-IsBounded a t.sent e))
]

-- `evaluate_miner` keeps the feed at 25 entries at most, and the cooldown keys at 512 at most.
pub evaluate_miner-IsBounded :
    (cfg : AlertConfig) (now : ℕ) (clock : Kind → Times) (s : MinerStatus) (e : AlertEngine)
    → IsBounded e
    → IsBounded (evaluate_miner cfg now clock s e)
evaluate_miner-IsBounded cfg now clock s e h =
    evaluate_miner_keeps IsBounded cfg clock (λ c a k f b. emit_if-IsBounded c cfg a (clock k) f b)
      (λ k p f b. b) (λ k v f b. b) now s e h
