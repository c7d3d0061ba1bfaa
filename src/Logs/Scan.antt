-- ===== src/Logs/Scan.antt =====
-- pocisys-hash-monitor/services/pool_logs.py: `_scan`, and a round of `run`.
use gauge_umbrel_community.Prelude.{
  ℕ, zero, suc, ◌+◌, Bool, List, [], ◌∷◌, Option, none, some, Text, is_empty, ltb, ◌==◌,
  if◌then◌else◌, take,
}
use gauge_umbrel_community.Logs.Dict.{lookup, insert}
use gauge_umbrel_community.Logs.State.{PoolMode, PoolConfig, log_line, LogState}
use gauge_umbrel_community.Logs.Blocks.{add_event}
use gauge_umbrel_community.Logs.Poll.{PortReply, poll_public_pool}

-- A line as `readline` cuts it: its bytes, and its text, decoded and stripped.
pub record Line : Type 0 where
  pub size : ℕ
  pub text : Text

-- A pool's log. `lines` is what is read from a position on.
pub record LogFile : Type 0 where
  pub is_file : Bool
  pub size : ℕ
  pub lines : ℕ → List Line

-- What a round meets for a pool.
pub record PoolInput : Type 0 where
  pub file : LogFile
  pub users : List Text
  pub reply : Option PortReply

-- `search` is whether the pattern of a place of `RULES` is found in a line.
module _ (search : ℕ → Text → Bool) where
  -- The first of so many rules, from a place on, whose pattern is found.
  unfoldable pub first_rule : ℕ → ℕ → Text → Option ℕ
  first_rule zero place text = none
  first_rule (suc n) place text =
      let later = first_rule n (place + 1) text in if search place text then some place else later

  unfoldable pub classify_line : Text → Text → LogState → LogState
  unfolding first_rule add_event
  classify_line key text s = if is_empty text then s else elim (first_rule 7 0 text) [
    | none ↦ s
    | some rule ↦ add_event (log_line key rule (take 1000 text)) s
  ]

  -- At most so many lines of those that begin before `size`; the answer is where the reading ends.
  unfoldable pub scan_lines : Text → ℕ → ℕ → ℕ → List Line → LogState → ℕ × LogState
  unfolding classify_line
  scan_lines key size n at [] s = (at, s)
  scan_lines key size zero at (l ∷ ls) s = (at, s)
  scan_lines key size (suc n) at (l ∷ ls) s =
      let rest = scan_lines key size n (at + l.size) ls (classify_line key l.text s) in
      if ltb at size then rest else (at, s)

  abbrev keep_position : Text → ℕ × LogState → LogState
  keep_position path (at, s) = record s { positions = insert path at s.positions }

  unfoldable pub scan_from : PoolConfig → LogFile → ℕ → LogState → LogState
  unfolding scan_lines
  scan_from p f at s =
      if f.size == at
      then s
      else keep_position p.log_path (scan_lines p.key f.size 5000 at (f.lines at) s)

  -- The position that is kept: a new file is read from its end on, and a file that is shorter than
  -- before anew.
  unfoldable pub scan_known : PoolConfig → LogFile → Option ℕ → LogState → LogState
  unfolding scan_from
  scan_known p f none s = record s { positions = insert p.log_path f.size s.positions }
  scan_known p f (some at) s =
      if ltb f.size at
      then scan_from p f 0 (record s { positions = insert p.log_path 0 s.positions })
      else scan_from p f at s

  -- `_scan`
  unfoldable pub scan : PoolConfig → LogFile → LogState → LogState
  unfolding scan_known
  scan p f s = if f.is_file then scan_known p f (lookup p.log_path s.positions) s else s

  module _ (print_share : ℕ → Text → ℕ → Text) where
    unfoldable pub visit_pool : PoolConfig → PoolInput → LogState → LogState
    unfolding scan poll_public_pool
    visit_pool p i s =
        if p.enabled
        then elim p.mode [
          | PoolMode.local_log ↦ scan p i.file s
          | PoolMode.public_pool_api ↦ poll_public_pool print_share p i.users i.reply s
          | PoolMode.other_mode ↦ s
        ]
        else s

    -- A round of `run`.
    unfoldable pub visit_pools : List PoolConfig → (Text → PoolInput) → LogState → LogState
    unfolding visit_pool
    visit_pools [] input s = s
    visit_pools (p ∷ ps) input s = visit_pools ps input (visit_pool p (input p.key) s)
