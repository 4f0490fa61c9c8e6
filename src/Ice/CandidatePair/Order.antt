-- ===== src/Ice/CandidatePair/Order.antt =====
-- The pair priority: both agents compute the same number, it does not overflow, and it orders pairs
-- as the formula of RFC 8445 does.
use stice.Base.{
  ℕ, ◌+◌, ◌-◌, ◌*◌, ◌^◌, ◌<◌, ◌≡◌, ◌↔◌, refl, arith, Bool, true, false, not, min, max, ltb,
  if◌then◌else◌,
}
use stice.Ice.CandidatePair.{pair_formula, pair_priority}

-- 2 ^ 32 * MIN(G,D) + 2 * MAX(G,D) + (G > D ? 1 : 0), without bounds.
abbrev pub rfc_priority : ℕ → ℕ → ℕ
rfc_priority g d = 2 ^ 32 * min g d + 2 * max g d + (if ltb d g then 1 else 0)

-- On 32-bit priorities no step wraps around.
pub pair_formula-exact :
    (g d : ℕ)
    → g < 2 ^ 32
    → d < 2 ^ 32
    → pair_formula g d ≡ (2 ^ 32 - 1) * min g d + 2 * max g d + (if ltb d g then 1 else 0)
unfolding pair_formula
pair_formula-exact g d hg hd = ground arith

-- For priorities that candidates can have, below 2 ^ 31, the order of two pairs is the order of RFC
-- 8445, although the code multiplies by one less than 2 ^ 32.
pub pair_formula-order :
    (g d g' d' : ℕ)
    → g < 2 ^ 31
    → d < 2 ^ 31
    → g' < 2 ^ 31
    → d' < 2 ^ 31
    → (pair_formula g d < pair_formula g' d') ↔ (rfc_priority g d < rfc_priority g' d')
pair_formula-order g d g' d' hg hd hg' hd' = (
  λ h. ground (arith, pair_formula-exact g d, pair_formula-exact g' d'),
  λ h. ground (arith, pair_formula-exact g d, pair_formula-exact g' d'),
)

-- Two pairs have one priority only if both their candidates' priorities are the same.
pub pair_formula-injective :
    (g d g' d' : ℕ)
    → g < 2 ^ 31
    → d < 2 ^ 31
    → g' < 2 ^ 31
    → d' < 2 ^ 31
    → pair_formula g d ≡ pair_formula g' d'
    → (g ≡ g') × (d ≡ d')
pair_formula-injective g d g' d' hg hd hg' hd' e = (
  ground (arith, pair_formula-exact g d, pair_formula-exact g' d'),
  ground (arith, pair_formula-exact g d, pair_formula-exact g' d'),
)

-- The two agents of a session, which see local and remote swapped and are in opposite roles, give a
-- pair the same priority.
pub pair_priority-agents :
    (p q : ℕ) (controlling : Bool)
    → pair_priority p q controlling ≡ pair_priority q p (not controlling)
unfolding pair_priority
pair_priority-agents p q true = refl
pair_priority-agents p q false = refl
