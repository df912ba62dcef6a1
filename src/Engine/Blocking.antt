-- ===== src/Engine/Blocking.antt =====
-- src/engine/blocking.ts: a goal that blocks, and the tree that reaches its ceiling.
use corellia.Prelude.{
  ℕ, suc, ◌+◌, ◌/◌, ◌%◌, ◌≡◌, refl, sym, ◌∙◌, String, Option, none, some, List, [], ◌∷◌, ◌++◌, Bool,
  true, false, arith, ltb, if◌then◌else◌, Bool-cases, inl, inr,
}
use native.Mathlib.Nat.{add-zero}
use corellia.Prelude.Int.{pos}
use corellia.Prelude.Text.{concat, show}
use corellia.Contract.Goal.{Goal}
use corellia.Contract.Decision.{DecisionBrief, BriefResolution, deny, resolution_of}
use corellia.Contract.Report.{Report}
use corellia.Contract.Events.{EventBody, FactoryEvent, blocked, emitted, ceiling_reached}
use corellia.Engine.World.{TreeState, World, append_event}
use corellia.Engine.Reports.{blocked_report}

-- The handler of briefs, which may be absent.
abbrev pub OnBrief : Type 0
OnBrief = Option (DecisionBrief → BriefResolution)

unfoldable pub resolve : OnBrief → DecisionBrief → BriefResolution
resolve none brief = resolution_of brief.on_timeout
resolve (some ask) brief = ask brief

-- `(n / 10 ** 6).toFixed(2)` and `.toFixed(4)` of an amount in millionths. A tie goes up.
unfoldable pub to_fixed_2 : ℕ → String
to_fixed_2 n =
    let cents = (n + 5000) / 10000 in
    concat (
      show (cents / 100)
      ∷ "."
      ∷ (if ltb (cents % 100) 10 then "0" else "")
      ∷ show (cents % 100)
      ∷ [])

unfoldable pub to_fixed_4 : ℕ → String
to_fixed_4 n =
    let units = (n + 50) / 100 in
    let part = units % 10000 in
    concat (
      show (units / 10000)
      ∷ "."
      ∷ (if ltb part 10
          then "000"
          else if ltb part 100
          then "00"
          else if ltb part 1000
          then "0"
          else "")
      ∷ show part
      ∷ [])

module _ (now : ℕ → ℕ) where
  unfoldable pub run_block : OnBrief → Goal → DecisionBrief → World → Report × World
  run_block on_brief goal brief w =
      let report = blocked_report brief.question [] none in
      let w' = append_event now goal.id (blocked brief (resolve on_brief brief)) w in
      (report, append_event now goal.id (emitted report) w')

  unfoldable pub ceiling_reached_once : Goal → World → World
  ceiling_reached_once goal w =
      if w.tree.ceiling_emitted
      then w
      else append_event now goal.id (ceiling_reached w.tree.spent_usd w.tree.ceiling_usd)
          (record w { tree = record w.tree { ceiling_emitted = true } })

  unfoldable pub ceiling_brief : Goal → TreeState → DecisionBrief
  ceiling_brief goal tree = record {
    question = concat (
        "Tree spend ceiling of $"
        ∷ to_fixed_2 tree.ceiling_usd
        ∷ " reached (spent $"
        ∷ to_fixed_4 tree.spent_usd
        ∷ "). Tree halted."
        ∷ []);
    options = "deny" ∷ "park" ∷ "bounce" ∷ [];
    links = goal.id ∷ [];
    deadline_ms = pos 30000;
    on_timeout = deny;
    teaching = none;
  }

  unfoldable pub ceiling_report : OnBrief → Goal → World → Report × World
  unfolding ceiling_brief
  ceiling_report on_brief goal w =
      let w' = ceiling_reached_once goal w in
      run_block on_brief goal (ceiling_brief goal w'.tree) w'

abbrev pub is_ceiling : EventBody → Bool
is_ceiling (ceiling_reached s c) = true
is_ceiling _ = false

-- How often the log says that the ceiling was reached.
abbrev pub ceilings : List FactoryEvent → ℕ
ceilings [] = 0
ceilings (e ∷ es) = let rest = ceilings es in if is_ceiling e.body then suc rest else rest

ceilings-append : (xs ys : List FactoryEvent) → ceilings (xs ++ ys) ≡ ceilings xs + ceilings ys
ceilings-append [] ys = omega arith
ceilings-append (x ∷ xs) ys = ground (arith, ceilings-append xs ys)

module _ (now : ℕ → ℕ) (on_brief : OnBrief) where
  -- The branches of a tree that find the ceiling reached, one after the other.
  pub halt_all : List Goal → World → World
  halt_all [] w = w
  halt_all (g ∷ gs) w = halt_all gs (ceiling_report now on_brief g w).1

  halt_flag :
      (g : Goal) (w : World) → (ceiling_report now on_brief g w).1.tree.ceiling_emitted ≡ true
  unfolding ceiling_report ceiling_reached_once run_block append_event
  halt_flag g w = elim (Bool-cases w.tree.ceiling_emitted) [
    | inl e ↦ ground arith
    | inr e ↦ ground arith
  ]

  ceilings-append_event :
      (id : String) (body : EventBody) (w : World)
      → ceilings (append_event now id body w).log
        ≡ ceilings w.log + (if is_ceiling body then 1 else 0)
  unfolding append_event
  ceilings-append_event id body w =
      ground
        (arith, ceilings-append w.log (record { at = now w.tick; goal_id = id; body = body } ∷ []))

  ceilings-run_block :
      (g : Goal) (b : DecisionBrief) (w : World)
      → ceilings (run_block now on_brief g b w).1.log ≡ ceilings w.log
  unfolding run_block
  ceilings-run_block g b w =
      let first = blocked b (resolve on_brief b) in
      let w' = append_event now g.id first w in
      omega (
        arith,
        ceilings-append_event g.id first w,
        ceilings-append_event g.id (emitted (blocked_report b.question [] none)) w',
      )

  ceilings-report :
      (g : Goal) (w : World)
      → ceilings (ceiling_report now on_brief g w).1.log
        ≡ ceilings w.log + (if w.tree.ceiling_emitted then 0 else 1)
  unfolding ceiling_report ceiling_reached_once
  ceilings-report g w = elim (Bool-cases w.tree.ceiling_emitted) [
    | inl e ↦ simp e (ceilings-run_block g _ w ∙ sym (add-zero _))
    | inr e ↦ simp e (
        ceilings-run_block g _ _
        ∙ ceilings-append_event g.id (ceiling_reached w.tree.spent_usd w.tree.ceiling_usd)
            (record w { tree = record w.tree { ceiling_emitted = true } }))
  ]

  ceilings-halted :
      (gs : List Goal) (w : World)
      → w.tree.ceiling_emitted ≡ true
      → ceilings (halt_all gs w).log ≡ ceilings w.log
  unfolding halt_all
  ceilings-halted [] w e = refl
  ceilings-halted (g ∷ gs) w e =
      ceilings-halted gs _ (halt_flag g w) ∙ (let step = ceilings-report g w in ground arith)

  -- In a tree that has not reported its ceiling, however many branches find it reached, one after
  -- the other and at least one, the log says so exactly once more.
  pub ceiling_logged_once :
      (g : Goal) (gs : List Goal) (w : World)
      → w.tree.ceiling_emitted ≡ false
      → ceilings (halt_all (g ∷ gs) w).log ≡ ceilings w.log + 1
  unfolding halt_all
  ceiling_logged_once g gs w e =
      ceilings-halted gs _ (halt_flag g w) ∙ (let step = ceilings-report g w in ground arith)
