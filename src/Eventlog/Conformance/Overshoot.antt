-- ===== src/Eventlog/Conformance/Overshoot.antt =====
-- The audit of src/eventlog/conformance/spend.ts against the ceiling of src/engine/blocking.ts.
use corellia.Prelude.{
  ℕ, suc, ◌+◌, ◌≤◌, ◌<◌, ◌≡◌, ◌≢◌, refl, ◌∙◌, none, some, List, [], ◌∷◌, ◌++◌, false, arith, length,
  In, All-In, In-append_right, inl,
}
use native.Mathlib.Nat.{add-zero, zero-add}
use corellia.Contract.Goal.{Goal}
use corellia.Contract.Events.{ceiling_reached, FactoryEvent}
use corellia.Engine.World.{World, append_event}
use corellia.Engine.Blocking.{ceiling_reached_once}
use corellia.Eventlog.Conformance.Spend.{
  SpendPoint, declared_ceiling, spend_points, check_spend, check_spend-IsWithin,
}

spend_points-append :
    (i : ℕ) (xs ys : List FactoryEvent)
    → spend_points i (xs ++ ys) ≡ spend_points i xs ++ spend_points (i + length xs) ys
unfolding spend_points
spend_points-append i [] ys = rw (add-zero i) refl
spend_points-append i (x ∷ xs) ys =
    let shift : suc i + length xs ≡ i + suc (length xs) = omega arith in
    let rest = spend_points-append (suc i) xs ys in ground arith

declared_ceiling-append :
    (i : ℕ) (xs ys : List FactoryEvent)
    → declared_ceiling i xs ≡ none
    → declared_ceiling i (xs ++ ys) ≡ declared_ceiling (i + length xs) ys
unfolding declared_ceiling
declared_ceiling-append i [] ys h = rw (add-zero i) refl
declared_ceiling-append i (x ∷ xs) ys h =
    let shift : suc i + length xs ≡ i + suc (length xs) = omega arith in
    let rest = declared_ceiling-append (suc i) xs ys in ground arith

-- When a tree reports its ceiling for the first time, with a spend above it, on a log that states
-- no ceiling, the audit's check of the spend then reports a violation.
pub overshoot_flagged :
    (now : ℕ → ℕ) (goal : Goal) (w : World)
    → w.tree.ceiling_emitted ≡ false
    → w.tree.ceiling_usd < w.tree.spent_usd
    → declared_ceiling 0 w.log ≡ none
    → check_spend (ceiling_reached_once now goal w).log ≢ []
unfolding ceiling_reached_once append_event spend_points declared_ceiling
overshoot_flagged now goal w f over fresh silent =
    let within = (check_spend-IsWithin (ceiling_reached_once now goal w).log).0 silent in
    let under = within.under w.tree.ceiling_usd (length w.log) stated in
    let bound =
      All-In (λ (p : SpendPoint). p.spent_usd ≤ w.tree.ceiling_usd) _ point under listed in
    omega (arith, bound, over)
  where
    event : FactoryEvent
    event = record {
      at = now w.tick;
      goal_id = goal.id;
      body = ceiling_reached w.tree.spent_usd w.tree.ceiling_usd;
    }

    logged : (ceiling_reached_once now goal w).log ≡ w.log ++ event ∷ []
    logged = simp f

    point : SpendPoint
    point = record { index = length w.log; goal_id = goal.id; spent_usd = w.tree.spent_usd }

    stated :
        declared_ceiling 0 (ceiling_reached_once now goal w).log
        ≡ some (w.tree.ceiling_usd, length w.log)
    stated =
        rw logged
          (declared_ceiling-append 0 w.log (event ∷ []) fresh ∙ rw (zero-add (length w.log)) refl)

    listed : In point (spend_points 0 (ceiling_reached_once now goal w).log)
    listed = rw logged (
        rw (spend_points-append 0 w.log (event ∷ [])) (
          In-append_right (spend_points 0 w.log) _ point (rw (zero-add (length w.log)) (inl refl))))
