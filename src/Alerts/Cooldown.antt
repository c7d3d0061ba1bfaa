-- ===== src/Alerts/Cooldown.antt =====
-- pocisys-hash-monitor/services/alerts.py: the cooldown of `emit`.
use gauge_umbrel_community.Prelude.{
  ℕ, ◌+◌, ◌≤◌, ◌<◌, ◌≡◌, refl, true, false, List, [], ◌∷◌, some, none, Option, Bool-cases, inl, inr,
  not, ◌&&◌, ◌==◌, if◌then◌else◌, ◌∙◌, arith, length,
}
use gauge_umbrel_community.Alerts.State.{Kind, Alert, AlertConfig, AlertEngine, Times, Sent}
use gauge_umbrel_community.Alerts.Emit.{
  kind_tag, is_key, sent_at, put_sent, prune_cooldowns, is_cooling, record_entry, snooze_status,
  note_alert, deliver, emit_refuses, emit,
}

-- Noting one key leaves the times of the others alone.
sent_at-put_sent :
    (owner owner' : ℕ) (kind kind' : Kind) (now : ℕ) (xs : List Sent)
    → sent_at owner kind (put_sent owner' kind' now xs) ≡ (
        if owner == owner' && kind_tag kind == kind_tag kind'
        then some now
        else sent_at owner kind xs)
unfolding sent_at put_sent is_key
sent_at-put_sent owner owner' kind kind' now [] = refl
sent_at-put_sent owner owner' kind kind' now (x ∷ xs) =
    ground (arith, sent_at-put_sent owner owner' kind kind' now xs)

deliver-last_sent :
    (a : Alert) (now : ℕ) (e : AlertEngine) → (deliver a now e).last_sent ≡ e.last_sent
unfolding deliver snooze_status record_entry
deliver-last_sent a now e = ground arith

note_alert-last_sent :
    (a : Alert) (now : ℕ) (e : AlertEngine)
    → length (put_sent a.owner a.kind now e.last_sent) ≤ 512
    → (note_alert a now e).last_sent ≡ put_sent a.owner a.kind now e.last_sent
unfolding note_alert record_entry prune_cooldowns
note_alert-last_sent a now e h = ground arith

-- The key of an alert was last emitted at `t` or later.
abbrev IsNoted : ℕ → Option ℕ → Type 0
IsNoted t none = ⊥
IsNoted t (some at) = t ≤ at

put_sent-IsNoted :
    (b a : Alert) (t now : ℕ) (xs : List Sent)
    → t ≤ now
    → IsNoted t (sent_at b.owner b.kind xs)
    → IsNoted t (sent_at b.owner b.kind (put_sent a.owner a.kind now xs))
put_sent-IsNoted b a t now xs le h =
    rw (sent_at-put_sent b.owner a.owner b.kind a.kind now xs)
      (elim (Bool-cases (b.owner == a.owner && kind_tag b.kind == kind_tag a.kind)) [
        | inl same ↦ rw same le
        | inr other ↦ rw other h
      ])

emitted-last_sent :
    (a : Alert) (t : Times) (e : AlertEngine)
    → length (put_sent a.owner a.kind t.sent e.last_sent) ≤ 512
    → (deliver a t.snooze (note_alert a t.sent e)).last_sent
      ≡ put_sent a.owner a.kind t.sent e.last_sent
emitted-last_sent a t e few =
    deliver-last_sent a t.snooze (note_alert a t.sent e) ∙ note_alert-last_sent a t.sent e few

emit-IsNoted :
    (cfg : AlertConfig) (b a : Alert) (t : ℕ) (u : Times) (e : AlertEngine)
    → t ≤ u.sent
    → length (put_sent a.owner a.kind u.sent e.last_sent) ≤ 512
    → IsNoted t (sent_at b.owner b.kind e.last_sent)
    → IsNoted t (sent_at b.owner b.kind (emit cfg a u e).1.last_sent)
unfolding emit
emit-IsNoted cfg b a t u e le few h = elim (Bool-cases (emit_refuses cfg a u e)) [
  | inl refused ↦ rw refused h
  | inr sends ↦
      rw sends (rw (emitted-last_sent a u e few) (put_sent-IsNoted b a t u.sent e.last_sent le h))
]

-- The engine after several calls of `emit`, each with its times.
pub emit_all : AlertConfig → List (Alert × Times) → AlertEngine → AlertEngine
emit_all cfg [] e = e
emit_all cfg ((a, u) ∷ calls) e = emit_all cfg calls (emit cfg a u e).1

-- Every call is at `t` or later, and finds at most 512 keys with its own.
abbrev pub IsCalm : AlertConfig → ℕ → List (Alert × Times) → AlertEngine → Type 0
IsCalm cfg t [] e = Unit
IsCalm cfg t ((a, u) ∷ calls) e =
    (t ≤ u.sent)
    × (length (put_sent a.owner a.kind u.sent e.last_sent) ≤ 512)
    × IsCalm cfg t calls (emit cfg a u e).1

emit_all-IsNoted :
    (cfg : AlertConfig) (b : Alert) (t : ℕ) (calls : List (Alert × Times)) (e : AlertEngine)
    → IsCalm cfg t calls e
    → IsNoted t (sent_at b.owner b.kind e.last_sent)
    → IsNoted t (sent_at b.owner b.kind (emit_all cfg calls e).last_sent)
unfolding emit_all
emit_all-IsNoted cfg b t [] e calm h = h
emit_all-IsNoted cfg b t ((a, u) ∷ calls) e calm h =
    emit_all-IsNoted cfg b t calls (emit cfg a u e).1 calm.2
      (emit-IsNoted cfg b a t u e calm.0 calm.1 h)

noted-refused :
    (cfg : AlertConfig) (b : Alert) (u : Times) (t : ℕ) (o : Option ℕ)
    → b.force ≡ false
    → IsNoted t o
    → u.sent < t + cfg.cooldown
    → (not b.force && is_cooling cfg.cooldown u.sent o) ≡ true
unfolding is_cooling
noted-refused cfg b u t none force h soon = absurd h
noted-refused cfg b u t (some at) force h soon = ground arith

same_key : (n m : ℕ) → (n == n && m == m) ≡ true
same_key n m = ground arith

first-IsNoted :
    (cfg : AlertConfig) (a b : Alert) (t : Times) (e : AlertEngine)
    → emit_refuses cfg a t e ≡ false
    → b.owner ≡ a.owner
    → b.kind ≡ a.kind
    → length (put_sent a.owner a.kind t.sent e.last_sent) ≤ 512
    → IsNoted t.sent (sent_at b.owner b.kind (emit cfg a t e).1.last_sent)
unfolding emit
first-IsNoted cfg a b t e first owner kind few =
    rw
      (
        first,
        emitted-last_sent a t e few,
        sent_at-put_sent b.owner a.owner b.kind a.kind t.sent e.last_sent,
        owner,
        kind,
      )
      (rw (same_key a.owner (kind_tag a.kind)) (omega arith))

refused_emit :
    (cfg : AlertConfig) (b : Alert) (u : Times) (s : AlertEngine)
    → (not b.force && is_cooling cfg.cooldown u.sent (sent_at b.owner b.kind s.last_sent)) ≡ true
    → emit cfg b u s ≡ (false, s)
unfolding emit emit_refuses
refused_emit cfg b u s h = ground arith

-- Once an alert has been emitted at `t`, and whatever alerts are emitted or refused in between, an
-- alert with the same key that is not forced is refused, and changes nothing, at every time before
-- `t` plus the cooldown; as long as the calls in between are not before `t` and there are at most
-- 512 keys.
pub emit_again :
    (cfg : AlertConfig) (a b : Alert) (t u : Times) (calls : List (Alert × Times)) (e : AlertEngine)
    → emit_refuses cfg a t e ≡ false
    → b.owner ≡ a.owner
    → b.kind ≡ a.kind
    → b.force ≡ false
    → length (put_sent a.owner a.kind t.sent e.last_sent) ≤ 512
    → IsCalm cfg t.sent calls (emit cfg a t e).1
    → u.sent < t.sent + cfg.cooldown
    → let s = emit_all cfg calls (emit cfg a t e).1 in emit cfg b u s ≡ (false, s)
emit_again cfg a b t u calls e first owner kind force few calm soon =
    let s = emit_all cfg calls (emit cfg a t e).1 in
    let noted =
      emit_all-IsNoted cfg b t.sent calls (emit cfg a t e).1 calm
        (first-IsNoted cfg a b t e first owner kind few) in
    refused_emit cfg b u s
      (noted-refused cfg b u t.sent (sent_at b.owner b.kind s.last_sent) force noted soon)
