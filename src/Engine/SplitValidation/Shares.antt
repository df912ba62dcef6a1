-- ===== src/Engine/SplitValidation/Shares.antt =====
-- src/engine/split-validation.ts: the shares of a split, in millionths. A quotient is rounded down.
use corellia.Prelude.{
  ℕ, ◌+◌, ◌*◌, ◌/◌, String, Option, none, some, List, [], ◌∷◌, map, leb, if◌then◌else◌, ◌==◌, ◌||◌,
}
use corellia.Prelude.Text.{concat}
use corellia.Contract.Decision.{ChildPlan}
use corellia.Engine.Blocking.{to_fixed_4}

-- `children.reduce((sum, child) => sum + child.budgetShare, 0)`
unfoldable pub total_share : List ChildPlan → ℕ
total_share [] = 0
total_share (c ∷ cs) = c.budget_share + total_share cs

abbrev pub scale : ℕ → ChildPlan → ChildPlan
scale total c = record c { budget_share = c.budget_share * 1000000 / total }

unfoldable pub renormalize_shares : List ChildPlan → List ChildPlan
renormalize_shares children =
    let total = total_share children in
    if leb total 1000000 || total == 0 then children else map (scale total) children

unfoldable pub validate_budget_shares : List ChildPlan → Option String
validate_budget_shares children =
    let total = total_share children in
    if leb total 1000100
    then none
    else some (concat ("budgetShares sum to " ∷ to_fixed_4 total ∷ ", must be ≤ 1" ∷ []))
