-- ===== src/Logs/Reached.antt =====
-- pocisys-hash-monitor/services/pool_logs.py: the service from its start on.
use gauge_umbrel_community.Prelude.{ℕ, List, Option, none, Bool, Text, arith}
use gauge_umbrel_community.Logs.Dict.{lookup}
use gauge_umbrel_community.Logs.State.{PoolConfig, LogState}
use gauge_umbrel_community.Logs.History.{fresh, shares_of, reconfigure, clear_share_history}
use gauge_umbrel_community.Logs.Poll.{PortReply, poll_public_pool}
use gauge_umbrel_community.Logs.Scan.{LogFile, scan}
use gauge_umbrel_community.Logs.Bests.{IsLog}
use gauge_umbrel_community.Logs.Steps.{
  scan-IsLog, poll_public_pool-IsLog, reconfigure-IsLog, clear_share_history-IsLog,
}

-- What a service without a history becomes.
pub data Reached (print_share : ℕ → Text → ℕ → Text) (search : ℕ → Text → Bool)
    : LogState → Type 0 where
  started :
      (pools : List PoolConfig) (has_path : Bool)
      → Reached print_share search (fresh pools has_path none)
  polled :
      (p : PoolConfig) (users : List Text) (r : Option PortReply) (s : LogState)
      → Reached print_share search s
      → Reached print_share search (poll_public_pool print_share p users r s)
  scanned :
      (p : PoolConfig) (f : LogFile) (s : LogState)
      → Reached print_share search s
      → Reached print_share search (scan search p f s)
  reconfigured :
      (pools : List PoolConfig) (s : LogState)
      → Reached print_share search s
      → Reached print_share search (reconfigure pools s)
  cleared :
      (now : ℕ) (s : LogState)
      → Reached print_share search s
      → Reached print_share search (clear_share_history now s)

fresh-IsLog : (pools : List PoolConfig) (has_path : Bool) → IsLog (fresh pools has_path none)
unfolding fresh shares_of lookup
fresh-IsLog pools has_path = record {
  below = λ k. omega arith;
  bounded = λ k. tt;
  short = λ k. omega arith;
}

-- A service that starts without a history file has, after any polls, scans, resets and changes of
-- the configuration, and for every pool: a session's best that is at most the best of all time, no
-- more than ten shares, and no share above the best of all time.
pub Reached-IsLog :
    (print_share : ℕ → Text → ℕ → Text) (search : ℕ → Text → Bool) (s : LogState)
    → Reached print_share search s
    → IsLog s
Reached-IsLog print_share search _ (started pools has_path) = fresh-IsLog pools has_path
Reached-IsLog print_share search _ (polled p users r s h) =
    poll_public_pool-IsLog print_share p users r s (Reached-IsLog print_share search s h)
Reached-IsLog print_share search _ (scanned p f s h) =
    scan-IsLog search p f s (Reached-IsLog print_share search s h)
Reached-IsLog print_share search _ (reconfigured pools s h) =
    reconfigure-IsLog pools s (Reached-IsLog print_share search s h)
Reached-IsLog print_share search _ (cleared now s h) = clear_share_history-IsLog now s
