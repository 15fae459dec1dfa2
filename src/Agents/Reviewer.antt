-- ===== src/Agents/Reviewer.antt =====
-- app/agents/reviewer.py. The confidence is counted in hundredths.
use ochestrate.Base.{
  ℕ, ◌+◌, ◌-◌, ◌*◌, ◌≤◌, ◌<◌, ◌↔◌, min, List, [], ◌∷◌, length, ltb, if◌then◌else◌, arith,
}
use ochestrate.Text.{Text, codes}
use ochestrate.Schemas.{Citation}

unfoldable pub base_confidence : Text → List Citation → ℕ → ℕ
base_confidence answer citations actions_count =
    (50 + (if ltb 0 (length citations) then min 40 (length citations * 8) else 0))
    + (if ltb 0 actions_count then 5 else 0)
    - (if ltb (length answer) 20 then 10 else 0)

-- `ReviewerAgent.review`
unfoldable pub review : Text → List Citation → ℕ → Text × ℕ
unfolding base_confidence
review [] citations actions_count = (codes "I do not have enough evidence to answer reliably.", 10)
review (c ∷ cs) citations actions_count =
    (c ∷ cs, min (base_confidence (c ∷ cs) citations actions_count) 100)

-- The confidence is at most 100 hundredths, and it is at least 40 exactly if the answer has text
-- in it.
pub review-confidence :
    (answer : Text) (citations : List Citation) (actions_count : ℕ)
    → ((review answer citations actions_count).1 ≤ 100)
      × ((40 ≤ (review answer citations actions_count).1) ↔ (0 < length answer))
unfolding review base_confidence
review-confidence [] citations actions_count = (omega arith, (λ h. omega arith, λ h. omega arith))
review-confidence (c ∷ cs) citations actions_count =
    (ground arith, (λ h. omega arith, λ h. ground arith))
