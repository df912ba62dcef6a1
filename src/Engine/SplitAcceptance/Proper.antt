-- ===== src/Engine/SplitAcceptance/Proper.antt =====
-- What src/engine/decision/split-acceptance.ts accepts is a proper split.
use corellia.Prelude.{ℕ, zero, suc, ◌≡◌, refl, subst, String, Option, none, some, List, if_intro}
use corellia.Contract.Goal.{Budget, Usage}
use corellia.Contract.Decision.{ChildPlan, Decision, satisfy, split, block}
use corellia.Contract.Verdict.{Verdict}
use corellia.Contract.Report.{Report}
use corellia.Engine.World.{World}
use corellia.Engine.Fallible.{Fallible, returns, throws}
use corellia.Engine.SplitValidation.Shares.{renormalize_shares}
use corellia.Engine.SplitValidation.Check.{validate_split}
use corellia.Engine.SplitValidation.Accepts.{IsSplit, validate_split-IsSplit}
use corellia.Engine.SplitAcceptance.Covered.{Passes, cover-Passes}
use corellia.Engine.SplitAcceptance.Verdicts.{Acceptance}
use corellia.Engine.SplitAcceptance.Turn.{
  AcceptanceResult, accepted, emits, ceiling, Turn, Next, stop, again, after_rejection,
  reject_structure, reject_judged, augment_split_for_coverage, judge_turn, covered_turn,
  validated_turn, decision_turn, turn,
}
use corellia.Engine.SplitAcceptance.Loop.{accept_loop, accept_split_decision}

module _ (a : Acceptance) where
  -- A decision to split has proper children.
  abbrev pub IsProper : Decision → Type 0
  IsProper satisfy = Unit
  IsProper (split children) = IsSplit children (some a.resolve_type)
  IsProper (block brief) = Unit

  -- What the loop stops with, if it is accepted, is proper.
  Stops : Next → Type 0
  Stops (stop (accepted d u) w) = IsProper d
  Stops (stop (emits r) w) = Unit
  Stops (stop ceiling w) = Unit
  Stops (again t w) = Unit

  again-Stops : (t : Turn) (w : World) → Stops (again t w)
  unfolding Stops
  again-Stops t w = tt

  emits-Stops : (r : Report) (w : World) → Stops (stop (emits r) w)
  unfolding Stops
  emits-Stops r w = tt

  ceiling-Stops : (w : World) → Stops (stop ceiling w)
  unfolding Stops
  ceiling-Stops w = tt

  accepted-Stops :
      (d : Decision) (u : Option Usage) (w : World) → IsProper d → Stops (stop (accepted d u) w)
  unfolding Stops
  accepted-Stops d u w h = h

  after_rejection-Stops :
      (cs : List ChildPlan) (v : Verdict) (b : Budget) (w : World)
      → Stops (after_rejection a cs v b w)
  unfolding after_rejection
  after_rejection-Stops cs v b w = search (if_intro Stops, again-Stops, emits-Stops, ceiling-Stops)

  reject_structure-Stops :
      (cs : List ChildPlan) (e : String) (t : Turn) (w : World)
      → Stops (reject_structure a cs e t w)
  unfolding reject_structure
  reject_structure-Stops cs e t w = search (if_intro Stops, emits-Stops, after_rejection-Stops)

  reject_judged-Stops :
      (cs : List ChildPlan) (v : Verdict) (t : Turn) (w : World) → Stops (reject_judged a cs v t w)
  unfolding reject_judged
  reject_judged-Stops cs v t w = search (if_intro Stops, emits-Stops, after_rejection-Stops)

  judge_turn-Stops :
      (cs : List ChildPlan) (t : Turn) (w : World)
      → IsSplit cs (some a.resolve_type)
      → Stops (judge_turn a cs t w)
  unfolding judge_turn
  judge_turn-Stops cs t w h =
      let done : (w' : World) → Stops (stop (accepted (split cs) t.usage) w') =
        λ w'. accepted-Stops (split cs) t.usage w' h in
      search (if_intro Stops, done, ceiling-Stops, reject_judged-Stops)

  covered_turn-Stops :
      (r : Fallible (List ChildPlan)) (t : Turn) (w : World)
      → Passes a.resolve_type r
      → Stops (covered_turn a r t w)
  unfolding covered_turn Passes
  covered_turn-Stops (returns cs) t w ok =
      judge_turn-Stops cs t w ((validate_split-IsSplit cs (some a.resolve_type)).0 ok)
  covered_turn-Stops (throws m) t w ok = emits-Stops _ _

  validated_turn-Stops :
      (r : Option String) (cs : List ChildPlan) (t : Turn) (w : World)
      → validate_split cs (some a.resolve_type) ≡ r
      → Stops (validated_turn a r cs t w)
  unfolding validated_turn
  validated_turn-Stops (some e) cs t w q = reject_structure-Stops cs e t w
  validated_turn-Stops none cs t w q =
      covered_turn-Stops (augment_split_for_coverage a cs w).0 t
        (augment_split_for_coverage a cs w).1 (cover-Passes a cs w q)

  decision_turn-Stops : (d : Decision) (t : Turn) (w : World) → Stops (decision_turn a d t w)
  unfolding decision_turn
  decision_turn-Stops satisfy t w = accepted-Stops satisfy t.usage w tt
  decision_turn-Stops (block brief) t w = accepted-Stops (block brief) t.usage w tt
  decision_turn-Stops (split cs) t w =
      validated_turn-Stops (validate_split (renormalize_shares cs) (some a.resolve_type))
        (renormalize_shares cs) t w refl

  -- What a loop returns, if it is accepted, is proper.
  Returns : Option (AcceptanceResult × World) → Type 0
  Returns none = Unit
  Returns (some (accepted d u, w)) = IsProper d
  Returns (some (emits r, w)) = Unit
  Returns (some (ceiling, w)) = Unit

  next-Returns :
      (fuel : ℕ) (n : Next)
      → Stops n
      → ((t : Turn) (w : World) → Returns (accept_loop a fuel t w))
      → Returns (elim n as (λ _. Option (AcceptanceResult × World)) [
        | stop result w ↦ some (result, w)
        | again t w ↦ accept_loop a fuel t w
      ])
  unfolding Stops Returns
  next-Returns fuel (stop (accepted d u) w) h k = h
  next-Returns fuel (stop (emits r) w) h k = tt
  next-Returns fuel (stop ceiling w) h k = tt
  next-Returns fuel (again t w) h k = k t w

  accept_loop-Returns : (fuel : ℕ) (t : Turn) (w : World) → Returns (accept_loop a fuel t w)
  unfolding accept_loop
  accept_loop-Returns zero t w = unfold Returns in tt
  accept_loop-Returns (suc fuel) t w =
      next-Returns fuel (turn a t w) (unfold turn in decision_turn-Stops t.decision t w)
        (accept_loop-Returns fuel)

  emits-Returns : (r : Report) (w : World) → Returns (some (emits r, w))
  unfolding Returns
  emits-Returns r w = tt

  accept-Returns :
      (fuel : ℕ) (children : List ChildPlan) (usage : Option Usage) (w : World)
      → Returns (accept_split_decision a fuel children usage w)
  unfolding accept_split_decision
  accept-Returns fuel children usage w =
      search (if_intro Returns, emits-Returns, accept_loop-Returns)

  -- When a proposed split is accepted, what is accepted is no split, or a proper one, whatever the
  -- decider, the judge and the knowledge answered in between.
  pub accepted-IsProper :
      (fuel : ℕ) (children : List ChildPlan) (usage : Option Usage) (w : World) (d : Decision)
      (u : Option Usage) (w' : World)
      → accept_split_decision a fuel children usage w ≡ some (accepted d u, w')
      → IsProper d
  accepted-IsProper fuel children usage w d u w' h =
      unfold Returns in subst Returns h (accept-Returns fuel children usage w)
