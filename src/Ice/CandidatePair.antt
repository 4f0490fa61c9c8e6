-- ===== src/Ice/CandidatePair.antt =====
-- include/stice/ice/candidatepair.hpp: the priority of a pair of candidates.
pub mod Order
use stice.Base.{
  ℕ, ◌+◌, ◌-◌, ◌*◌, ◌%◌, ◌^◌, Bool, true, false, Option, none, some, ltb, if◌then◌else◌,
}

-- On a uint64_t; `g` is the priority of the controlling side.
unfoldable pub pair_formula : ℕ → ℕ → ℕ
pair_formula g d =
    let low = if ltb g d then g else d in
    let high = if ltb d g then g else d in
    ((2 ^ 32 - 1) * low % 2 ^ 64 + high * 2 % 2 ^ 64 + (if ltb d g then 1 else 0)) % 2 ^ 64

unfoldable pub pair_priority : ℕ → ℕ → Bool → ℕ
unfolding pair_formula
pair_priority local_priority remote_priority local_is_controlling =
    pair_formula (if local_is_controlling then local_priority else remote_priority)
      (if local_is_controlling then remote_priority else local_priority)

abbrev pub priority_or_zero : Option ℕ → ℕ
priority_or_zero none = 0
priority_or_zero (some p) = p

-- `updatePriority`: the priorities of the two candidates, where the pair has them.
unfoldable pub updated_priority : Option ℕ → Option ℕ → Bool → ℕ
unfolding pair_priority
updated_priority local remote local_is_controlling =
    pair_priority (priority_or_zero local) (priority_or_zero remote) local_is_controlling
