-- ===== src/Health/Miners.antt =====
-- pocisys-hash-monitor/services/health.py: the engine over the rounds of several miners.
use gauge_umbrel_community.Prelude.{
  ℕ, zero, suc, ◌≤◌, ◌≡◌, refl, true, false, List, [], ◌∷◌, none, arith, Bool-cases, get_or,
  if◌then◌else◌, ◌==◌, length, length-take, take, inl, inr, ◌≢◌, ap, ◌∙◌, All,
}
use gauge_umbrel_community.Health.State.{Transition, Engine}
use gauge_umbrel_community.Health.Evaluate.{evaluate, evaluate_tracker, new_tracker, state_tag}
use gauge_umbrel_community.Health.Streaks.{Round, run}

-- An evaluation of the miner `key`.
pub record Visit : Type 0 where
  pub time : ℕ
  pub key : ℕ
  pub round : Round

unfoldable pub new_engine : Engine
new_engine = record { trackers = (λ key. none); transitions = [] }

-- The engine after evaluations, the latest first.
unfoldable pub visit : List Visit → Engine
visit [] = new_engine
visit (v ∷ vs) = evaluate v.time v.key v.round.status v.round.limits (visit vs)

-- The rounds of one miner.
unfoldable pub rounds_of : ℕ → List Visit → List Round
rounds_of k [] = []
rounds_of k (v ∷ vs) = let rest = rounds_of k vs in if k == v.key then v.round ∷ rest else rest

-- What `transitions` promises: at most 50, each between different states.
abbrev pub IsHistory : List Transition → Type 0
IsHistory ts = (length ts ≤ 50) × All (λ c. state_tag c.before ≢ state_tag c.after) ts

All-take : {A : Type 0} (P : A → Type 0) (n : ℕ) (xs : List A) → All P xs → All P (take n xs)
All-take P zero xs h = tt
All-take P (suc n) [] h = tt
All-take P (suc n) (x ∷ xs) h = (h.0, All-take P n xs h.1)

same_key : (j k : ℕ) → (j == k) ≡ true → k ≡ j
same_key j k h = ground arith

differ : (a b : ℕ) → (a == b) ≡ false → b ≢ a
differ a b h = ground arith

-- After evaluations of several miners, the tracker of a miner is that of its own rounds alone.
pub visit-trackers :
    (vs : List Visit) (k : ℕ) → get_or new_tracker ((visit vs).trackers k) ≡ run (rounds_of k vs)
unfolding visit run rounds_of new_engine evaluate
visit-trackers [] k = refl
visit-trackers (v ∷ vs) k = elim (Bool-cases (k == v.key)) [
  | inl own ↦ rw own (
      ap (evaluate_tracker v.round.status v.round.limits) (
        ap (λ j. get_or new_tracker ((visit vs).trackers j)) (same_key k v.key own)
        ∙ visit-trackers vs k))
  | inr another ↦ rw another (visit-trackers vs k)
]

-- After any evaluations `transitions` holds at most 50 entries, and each is between different
-- states.
pub visit-IsHistory : (vs : List Visit) → IsHistory (visit vs).transitions
unfolding visit new_engine evaluate
visit-IsHistory [] = (omega arith, tt)
visit-IsHistory (v ∷ vs) =
    elim (Bool-cases (
      state_tag
        (evaluate_tracker v.round.status v.round.limits
          (get_or new_tracker ((visit vs).trackers v.key))).state
      == state_tag (get_or new_tracker ((visit vs).trackers v.key)).state)) [
        | inl same ↦ rw same (visit-IsHistory vs)
        | inr changed ↦ rw changed (
          omega (arith, length-take 49 (visit vs).transitions),
          (differ _ _ changed, All-take _ 49 (visit vs).transitions (visit-IsHistory vs).1),
        )
      ]
