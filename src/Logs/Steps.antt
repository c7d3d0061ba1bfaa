-- ===== src/Logs/Steps.antt =====
-- pocisys-hash-monitor/services/pool_logs.py: what holds after any polls, scans, resets and
-- changes of the configuration.
use gauge_umbrel_community.Prelude.{
  ℕ, zero, suc, ◌+◌, ◌≤◌, Bool, Bool-cases, inl, inr, List, [], ◌∷◌, Option, none, some, arith,
  Text, take, all, is_empty, length, ltb, ◌==◌, get_or,
}
use gauge_umbrel_community.Logs.Dict.{
  Dict, lookup, insert, restrict, value, lookup-restrict, member,
}
use gauge_umbrel_community.Logs.State.{PoolConfig, LogState, Latest, log_line}
use gauge_umbrel_community.Logs.History.{
  shares_of, restrict_bests, restrict_log, reconfigure, clear_share_history, reset_keys,
}
use gauge_umbrel_community.Logs.Blocks.{add_event}
use gauge_umbrel_community.Logs.Poll.{
  PortReply, Client, set_latest, finish_poll, finish_bests, asked_client, miner_address, raw_shares,
  best_worker, client_best, pool_workers, poll_reply, poll_public_pool,
}
use gauge_umbrel_community.Logs.Scan.{
  LogFile, Line, classify_line, scan_lines, scan_from, scan, scan_known, first_rule,
}
use gauge_umbrel_community.Logs.Bests.{
  IsBelow, IsBounded, IsLog, save_share_history-IsLog, branch-IsLog,
}
use gauge_umbrel_community.Logs.Kept.{
  kept, add_event-IsLog, see_blocks-IsLog, observe_bests-IsLog, merge_shares-IsLog,
}

set_latest-IsLog : (key : Text) (l : Latest) (s : LogState) → IsLog s → IsLog (set_latest key l s)
unfolding set_latest shares_of
set_latest-IsLog key l s h = record { below = h.below; bounded = h.bounded; short = h.short }

finish_bests-IsLog :
    (key : Text) (r : PortReply) (c : Option Client) (s : LogState)
    → IsLog s
    → IsLog (finish_bests key r c s)
unfolding finish_bests
finish_bests-IsLog key r c s h =
    branch-IsLog r.has_rate _ _ (set_latest-IsLog key _ s h)
      (set_latest-IsLog key Latest.failed s h)

finish_poll-IsLog :
    (key : Text) (r : PortReply) (c : Option Client) (s : LogState)
    → IsLog s
    → IsLog (finish_poll key r c s)
unfolding finish_poll
finish_poll-IsLog key r c s h =
    branch-IsLog (all (λ w. w.has_rate) (pool_workers r c)) _ _
      (finish_bests-IsLog key r c _ (
        observe_bests-IsLog key (best_worker (pool_workers r c)).0
          (best_worker (pool_workers r c)).1 (get_or 0 (client_best c)) s h))
      (set_latest-IsLog key Latest.failed s h)

position-IsLog :
    (path : Text) (at : ℕ) (s : LogState)
    → IsLog s
    → IsLog (record s { positions = insert path at s.positions })
unfolding shares_of
position-IsLog path at s h = record { below = h.below; bounded = h.bounded; short = h.short }

rule-IsLog :
    (key : Text) (text : Text) (o : Option ℕ) (s : LogState)
    → IsLog s
    → IsLog (elim o [ none ↦ s | some rule ↦ add_event (log_line key rule (take 1000 text)) s ])
rule-IsLog key text none s h = h
rule-IsLog key text (some rule) s h = add_event-IsLog _ s h

module _ (search : ℕ → Text → Bool) where
  classify_line-IsLog :
      (key text : Text) (s : LogState) → IsLog s → IsLog (classify_line search key text s)
  unfolding classify_line
  classify_line-IsLog key text s h =
      branch-IsLog (is_empty text) s _ h (rule-IsLog key text (first_rule search 7 0 text) s h)

  scan_lines-IsLog :
      (key : Text) (size n at : ℕ) (ls : List Line) (s : LogState)
      → IsLog s
      → IsLog (scan_lines search key size n at ls s).1
  unfolding scan_lines
  scan_lines-IsLog key size n at [] s h = h
  scan_lines-IsLog key size zero at (l ∷ ls) s h = h
  scan_lines-IsLog key size (suc n) at (l ∷ ls) s h = elim (Bool-cases (ltb at size)) [
    | inl more ↦
        rw more
          (scan_lines-IsLog key size n (at + l.size) ls _ (classify_line-IsLog key l.text s h))
    | inr read ↦ rw read h
  ]

  scan_from-IsLog :
      (p : PoolConfig) (f : LogFile) (at : ℕ) (s : LogState)
      → IsLog s
      → IsLog (scan_from search p f at s)
  unfolding scan_from
  scan_from-IsLog p f at s h =
      branch-IsLog (f.size == at) s _ h
        (position-IsLog p.log_path _ _ (scan_lines-IsLog p.key f.size 5000 at (f.lines at) s h))

  scan_known-IsLog :
      (p : PoolConfig) (f : LogFile) (o : Option ℕ) (s : LogState)
      → IsLog s
      → IsLog (scan_known search p f o s)
  unfolding scan_known
  scan_known-IsLog p f none s h = position-IsLog p.log_path f.size s h
  scan_known-IsLog p f (some at) s h =
      branch-IsLog (ltb f.size at) _ _ (scan_from-IsLog p f 0 _ (position-IsLog p.log_path 0 s h))
        (scan_from-IsLog p f at s h)

  pub scan-IsLog :
      (p : PoolConfig) (f : LogFile) (s : LogState) → IsLog s → IsLog (scan search p f s)
  unfolding scan
  scan-IsLog p f s h =
      branch-IsLog f.is_file _ s (scan_known-IsLog p f (lookup p.log_path s.positions) s h) h

restricted_shares :
    (k : Text) (ids paths : List Text) (s : LogState)
    → IsBounded (value k s.all_time.best) (shares_of k s)
    → IsBounded (value k (restrict ids s.all_time.best)) (kept k (restrict ids s.share_history))
unfolding shares_of
restricted_shares k ids paths s h = elim (Bool-cases (member k ids)) [
  | inl active ↦
      rw (lookup-restrict k ids s.all_time.best)
        (rw (lookup-restrict k ids s.share_history) (rw active h))
  | inr gone ↦
      rw (lookup-restrict k ids s.all_time.best)
        (rw (lookup-restrict k ids s.share_history) (rw gone tt))
]

restricted_short :
    (k : Text) (ids : List Text) (s : LogState)
    → length (shares_of k s) ≤ 10
    → length (kept k (restrict ids s.share_history)) ≤ 10
unfolding shares_of
restricted_short k ids s h = ground (arith, lookup-restrict k ids s.share_history)

restrict_bests-IsBelow :
    (ids : List Text) (d e : Dict ℕ) → IsBelow d e → IsBelow (restrict ids d) (restrict ids e)
restrict_bests-IsBelow ids d e h k =
    ground (arith, h k, lookup-restrict k ids d, lookup-restrict k ids e)

restrict_log-IsLog :
    (ids paths : List Text) (s : LogState) → IsLog s → IsLog (restrict_log ids paths s)
unfolding restrict_log restrict_bests shares_of
restrict_log-IsLog ids paths s h = record {
  below = restrict_bests-IsBelow ids s.session.best s.all_time.best h.below;
  bounded = λ k. restricted_shares k ids paths s (h.bounded k);
  short = λ k. restricted_short k ids s (h.short k);
}

pools-IsLog :
    (pools : List PoolConfig) (s : LogState) → IsLog s → IsLog (record s { pools = pools })
unfolding shares_of
pools-IsLog pools s h = record { below = h.below; bounded = h.bounded; short = h.short }

pub reconfigure-IsLog :
    (pools : List PoolConfig) (s : LogState) → IsLog s → IsLog (reconfigure pools s)
unfolding reconfigure
reconfigure-IsLog pools s h =
    save_share_history-IsLog _ (pools-IsLog pools _ (restrict_log-IsLog _ _ s h))

cleared-IsLog :
    (reset : Dict ℕ) (s : LogState)
    → IsLog (record s {
      share_history = [];
      all_time = record { best = []; worker = [] };
      session = record { best = []; worker = [] };
      reset_after = reset;
    })
unfolding shares_of lookup
cleared-IsLog reset s = record {
  below = λ k. omega arith;
  bounded = λ k. tt;
  short = λ k. omega arith;
}

pub clear_share_history-IsLog : (now : ℕ) (s : LogState) → IsLog (clear_share_history now s)
unfolding clear_share_history
clear_share_history-IsLog now s =
    save_share_history-IsLog _ (cleared-IsLog (reset_keys now s.pools) s)

module _ (print_share : ℕ → Text → ℕ → Text) where
  poll_reply-IsLog :
      (p : PoolConfig) (users : List Text) (r : PortReply) (s : LogState)
      → IsLog s
      → IsLog (poll_reply print_share p users r s)
  unfolding poll_reply
  poll_reply-IsLog p users r s h =
      let c : Option Client = asked_client r (miner_address p users) in
      finish_poll-IsLog p.key r c _ (
        merge_shares-IsLog print_share p.key (raw_shares r c) _
          (see_blocks-IsLog p.key r.blocks s h))

  pub poll_public_pool-IsLog :
      (p : PoolConfig) (users : List Text) (o : Option PortReply) (s : LogState)
      → IsLog s
      → IsLog (poll_public_pool print_share p users o s)
  unfolding poll_public_pool
  poll_public_pool-IsLog p users none s h = set_latest-IsLog p.key _ s h
  poll_public_pool-IsLog p users (some r) s h =
      branch-IsLog p.has_url _ _ (poll_reply-IsLog p users r s h)
        (set_latest-IsLog p.key Latest.missing_url s h)
