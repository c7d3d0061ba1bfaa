-- ===== src/Logs/Blocks.antt =====
-- pocisys-hash-monitor/services/pool_logs.py: the blocks of `_poll_public_pool`, and the events.
use gauge_umbrel_community.Prelude.{
  Bool, not, ◌||◌, false, List, [], ◌∷◌, Option, none, some, Text, text_eq, ltb, leb, if◌then◌else◌,
  take, map, filter, length,
}
use mathlib.Core.List.{reverse}
use gauge_umbrel_community.Logs.Dict.{lookup, insert, member}
use gauge_umbrel_community.Logs.State.{Block, PoolEvent, block_found, LogState}

unfoldable pub has_block : Text → List Block → Bool
has_block id [] = false
has_block id (b ∷ bs) = text_eq id b.identifier || has_block id bs

-- The loop over the blocks, the latest first: those found until now, of which there are no more
-- than ten.
unfoldable pub unique_blocks : List (Option Block) → List Block → List Block
unfolding has_block
unique_blocks [] found = found
unique_blocks (none ∷ bs) found = unique_blocks bs found
unique_blocks (some b ∷ bs) found =
    let skipped = unique_blocks bs found in
    let added = unique_blocks bs (b ∷ found) in
    if has_block b.identifier found
    then skipped
    else if leb 9 (length found)
    then b ∷ found
    else added

-- `current_real`
unfoldable pub real_blocks : List (Option Block) → List Text
unfolding unique_blocks
real_blocks bs =
    map (λ b. b.identifier) (filter (λ b. ltb 1 b.height) (reverse (unique_blocks (reverse bs) [])))

-- `self.events.appendleft(event)`, and the alert engine's `pool_event`.
unfoldable pub add_event : PoolEvent → LogState → LogState
add_event e s = record s { events = take 50 (e ∷ s.events); notified = e ∷ s.notified }

unfoldable pub announce : Text → List Text → LogState → LogState
unfolding add_event
announce key [] s = s
announce key (id ∷ ids) s = announce key ids (add_event (block_found key id) s)

-- The blocks that the last poll has not seen are announced; the first poll announces none.
unfoldable pub new_blocks : Option (List Text) → List Text → List Text
new_blocks none current = []
new_blocks (some previous) current = filter (λ id. not (member id previous)) current

unfoldable pub see_blocks : Text → List (Option Block) → LogState → LogState
unfolding real_blocks new_blocks announce
see_blocks key bs s =
    let current = real_blocks bs in
    let s' = announce key (new_blocks (lookup key s.seen_blocks) current) s in
    record s' { seen_blocks = insert key (take 25 current) s'.seen_blocks }
