-- ===== src/Alerts/Emit.antt =====
-- pocisys-hash-monitor/services/alerts.py: `emit`, `_record`, `_prune_cooldowns` and the snooze.
use gauge_umbrel_community.Prelude.{
  ℕ, ◌+◌, ◌-◌, ◌*◌, ◌/◌, Bool, true, false, not, ◌&&◌, ◌||◌, List, [], ◌∷◌, Option, none, some, ltb,
  leb, ◌==◌, if◌then◌else◌, take, length,
}
use gauge_umbrel_community.Alerts.State.{
  Kind, Alert, Sent, FeedEntry, AlertConfig, AlertEngine, Times,
}

unfoldable pub kind_tag : Kind → ℕ
kind_tag Kind.offline = 0
kind_tag Kind.recovered = 1
kind_tag Kind.hashrate = 2
kind_tag Kind.temp_critical = 3
kind_tag Kind.temp_warning = 4
kind_tag Kind.chip_health = 5
kind_tag Kind.chip_health_recovered = 6
kind_tag Kind.pool_disconnected = 7
kind_tag Kind.pool_reconnected = 8
kind_tag Kind.pool_switch = 9
kind_tag Kind.shares = 10
kind_tag Kind.block_found = 11
kind_tag Kind.best = 12
kind_tag (Kind.pool_category n) = 13 + n

-- Whether an entry has the key of an alert.
unfoldable pub is_key : ℕ → Kind → Sent → Bool
is_key owner kind x = owner == x.owner && kind_tag kind == kind_tag x.kind

-- `self.last_sent.get(key)`
unfoldable pub sent_at : ℕ → Kind → List Sent → Option ℕ
sent_at owner kind [] = none
sent_at owner kind (x ∷ xs) =
    let rest = sent_at owner kind xs in if is_key owner kind x then some x.at else rest

-- `self.last_sent[key] = now`
unfoldable pub put_sent : ℕ → Kind → ℕ → List Sent → List Sent
put_sent owner kind now [] = record { owner = owner; kind = kind; at = now } ∷ []
put_sent owner kind now (x ∷ xs) =
    let rest = put_sent owner kind now xs in
    if is_key owner kind x
    then record { owner = x.owner; kind = x.kind; at = now } ∷ xs
    else x ∷ rest

-- Sorting by time, the newest first; equal times keep their order.
unfoldable pub insert_newest : Sent → List Sent → List Sent
insert_newest x [] = x ∷ []
insert_newest x (y ∷ ys) =
    let rest = insert_newest x ys in if leb y.at x.at then x ∷ y ∷ ys else y ∷ rest

unfoldable pub sort_newest : List Sent → List Sent
sort_newest [] = []
sort_newest (x ∷ xs) = insert_newest x (sort_newest xs)

unfoldable pub prune_cooldowns : List Sent → List Sent
prune_cooldowns xs = if leb (length xs) 512 then xs else take 512 (sort_newest xs)

-- `_record`
unfoldable pub record_entry : FeedEntry → AlertEngine → AlertEngine
record_entry x e = record e { alert_feed = take 25 (x ∷ e.alert_feed) }

-- The remaining seconds, rounded up.
unfoldable pub snooze_remaining : ℕ → AlertEngine → ℕ
snooze_remaining now e = if e.snooze_until == 0 then 0 else (e.snooze_until + 999 - now) / 1000

-- `snooze_status`: a snooze that is over is ended and recorded.
unfoldable pub snooze_status : ℕ → AlertEngine → AlertEngine
unfolding record_entry snooze_remaining
snooze_status now e =
    if not (e.snooze_until == 0) && snooze_remaining now e == 0
    then record_entry FeedEntry.resumed (record e { snooze_until = 0 })
    else e

-- `snooze`: `none` where the duration, in seconds, is refused.
unfoldable pub snooze : ℕ → ℕ → AlertEngine → Option AlertEngine
unfolding record_entry
snooze now seconds e =
    if seconds == 900 || seconds == 1800 || seconds == 3600
    then some (record_entry FeedEntry.snoozed (record e { snooze_until = now + 1000 * seconds }))
    else none

unfoldable pub resume : ℕ → AlertEngine → AlertEngine
unfolding record_entry snooze_status snooze_remaining
resume now e =
    let f : AlertEngine = record (snooze_status now e) { snooze_until = 0 } in
    if ltb 0 (snooze_remaining now e) then record_entry FeedEntry.resumed f else f

unfoldable pub is_cooling : ℕ → ℕ → Option ℕ → Bool
is_cooling cooldown now none = false
is_cooling cooldown now (some at) = ltb now (at + cooldown)

-- Noting that an alert is sent: `last_sent` and the feed.
unfoldable pub note_alert : Alert → ℕ → AlertEngine → AlertEngine
unfolding record_entry
note_alert a now e =
    record_entry (FeedEntry.emitted a)
      (record e { last_sent = prune_cooldowns (put_sent a.owner a.kind now e.last_sent) })

-- Handing an alert to Discord, unless alerts are snoozed.
unfoldable pub deliver : Alert → ℕ → AlertEngine → AlertEngine
unfolding snooze_status snooze_remaining
deliver a now e =
    let f = snooze_status now e in
    if ltb 0 (snooze_remaining now e) && not a.bypass_snooze
    then f
    else record f { sends = a ∷ f.sends }

-- `emit` refuses an alert of a key that is cooling down.
unfoldable pub emit_refuses : AlertConfig → Alert → Times → AlertEngine → Bool
unfolding is_cooling
emit_refuses cfg a t e =
    not a.force && is_cooling cfg.cooldown t.sent (sent_at a.owner a.kind e.last_sent)

-- `emit`: whether the alert is emitted, and the engine.
unfoldable pub emit : AlertConfig → Alert → Times → AlertEngine → Bool × AlertEngine
unfolding emit_refuses note_alert deliver
emit cfg a t e =
    if emit_refuses cfg a t e
    then (false, e)
    else (true, deliver a t.snooze (note_alert a t.sent e))

-- An `emit` under a condition.
unfoldable pub emit_if : Bool → AlertConfig → Alert → Times → AlertEngine → Bool × AlertEngine
unfolding emit
emit_if true cfg a t e = emit cfg a t e
emit_if false cfg a t e = (false, e)
