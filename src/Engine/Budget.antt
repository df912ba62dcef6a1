-- ===== src/Engine/Budget.antt =====
-- src/engine/budget.ts and src/engine/budget-events.ts: the counters of a goal.
use corellia.Prelude.{
  ℕ, ◌+◌, ◌≡◌, refl, List, [], ◌∷◌, map, Bool, true, not, ◌&&◌, arith, leb, if◌then◌else◌, length,
  ◌≤◌, ◌<◌, ◌-◌, ltb, Bool-cases, ◌∙◌, ap, inl, inr,
}
use corellia.Prelude.Int.{ℤ, pos, ◌-ℤ◌, leb_ℤ}
use corellia.Contract.Goal.{Budget, Goal, Usage}
use corellia.Contract.Events.{
  BudgetDimension, attempts, tokens, tool_calls, wall_clock_ms, budget_exhausted,
}
use corellia.Engine.World.{World, append_event, length-append_event}

-- `subdivide`: every child inherits every dimension.
unfoldable pub subdivide : Budget → List ℕ → List Budget
subdivide budget shares =
    map
      (λ _. record {
        attempts = budget.attempts;
        tokens = budget.tokens;
        tool_calls = budget.tool_calls;
        wall_clock_ms = budget.wall_clock_ms;
      })
      shares

-- `budget[dim]`
abbrev pub amount : Budget → BudgetDimension → ℤ
amount b attempts = b.attempts
amount b tokens = b.tokens
amount b tool_calls = b.tool_calls
amount b wall_clock_ms = b.wall_clock_ms

-- `{ ...budget, [dim]: v }`
abbrev pub with_amount : Budget → BudgetDimension → ℤ → Budget
with_amount b attempts v = record b { attempts = v }
with_amount b tokens v = record b { tokens = v }
with_amount b tool_calls v = record b { tool_calls = v }
with_amount b wall_clock_ms v = record b { wall_clock_ms = v }

pub record Consumed : Type 0 where
  pub budget : Budget
  pub exhausted : Bool

unfoldable pub consume_n : Budget → BudgetDimension → ℕ → Consumed
consume_n b dim n =
    let next = with_amount b dim (amount b dim -ℤ pos n) in
    record { budget = next; exhausted = leb_ℤ (amount next dim) (pos 0) }

unfoldable pub consume : Budget → BudgetDimension → Consumed
consume b dim =
    let next = with_amount b dim (amount b dim -ℤ pos 1) in
    record { budget = next; exhausted = leb_ℤ (amount next dim) (pos 0) }

-- What the debits add up to.
abbrev pub total : List ℕ → ℕ
total [] = 0
total (n ∷ ns) = n + total ns

module _ (now : ℕ → ℕ) (goal : Goal) where
  unfoldable pub debit_attempt : Budget → World → Budget × World
  debit_attempt b w =
      let consumed = consume b attempts in
      (
        consumed.budget,
        if consumed.exhausted then append_event now goal.id (budget_exhausted attempts) w else w,
      )

  unfoldable pub debit_token_count : Bool → ℕ → Budget → World → Budget × World
  debit_token_count only_on_crossing n b w =
      let consumed = consume_n b tokens n in
      let already = leb_ℤ b.tokens (pos 0) in
      if leb n 0 then (b, w) else (
        consumed.budget,
        if consumed.exhausted && not (only_on_crossing && already)
            then append_event now goal.id (budget_exhausted tokens) w
            else w,
      )

  unfoldable pub debit_token_usage : Bool → Usage → Budget → World → Budget × World
  unfolding debit_token_count
  debit_token_usage only_on_crossing usage b w =
      debit_token_count only_on_crossing (usage.prompt_tokens + usage.completion_tokens) b w

  -- The debits of several calls, one after the other.
  unfoldable pub debit_counts : Bool → List ℕ → Budget → World → Budget × World
  debit_counts only [] b w = (b, w)
  debit_counts only (n ∷ ns) b w =
      let (b', w') = debit_token_count only n b w in debit_counts only ns b' w'

  quiet :
      (n : ℕ) (b : Budget) (w : World)
      → leb_ℤ b.tokens (pos 0) ≡ true
      → ((debit_token_count true n b w).1 ≡ w)
        × (leb_ℤ (debit_token_count true n b w).0.tokens (pos 0) ≡ true)
  unfolding debit_token_count consume_n ◌-ℤ◌
  quiet n b w h = ground arith

  quiet_all :
      (ns : List ℕ) (b : Budget) (w : World)
      → leb_ℤ b.tokens (pos 0) ≡ true
      → (debit_counts true ns b w).1 ≡ w
  unfolding debit_counts
  quiet_all [] b w h = refl
  quiet_all (n ∷ ns) b w h =
      let (same, still) = quiet n b w h in
      quiet_all ns (debit_token_count true n b w).0 (debit_token_count true n b w).1 still ∙ same

  -- A debit that does not reach the amount left logs nothing.
  below :
      (n t : ℕ) (b : Budget) (w : World)
      → b.tokens ≡ pos t
      → n < t
      → ((debit_token_count true n b w).1 ≡ w)
        × ((debit_token_count true n b w).0.tokens ≡ pos (t - n))
  unfolding debit_token_count consume_n ◌-ℤ◌
  below n t b w e h = ground arith

  -- A debit that reaches the amount left logs one exhaustion.
  reaching :
      (n t : ℕ) (b : Budget) (w : World)
      → b.tokens ≡ pos t
      → 0 < t
      → t ≤ n
      → (length (debit_token_count true n b w).1.log ≡ length w.log + 1)
        × (leb_ℤ (debit_token_count true n b w).0.tokens (pos 0) ≡ true)
  unfolding debit_token_count consume_n ◌-ℤ◌
  reaching n t b w e p h =
      ground (arith, length-append_event now goal.id (budget_exhausted tokens) w)

  -- With `emitOnlyOnCrossing`, any sequence of debits from a budget with tokens left logs exactly
  -- one event when they add up to what is left, and none when they do not.
  pub crossing_once :
      (ns : List ℕ) (t : ℕ) (b : Budget) (w : World)
      → b.tokens ≡ pos t
      → 0 < t
      → length (debit_counts true ns b w).1.log ≡ length w.log + (if leb t (total ns) then 1 else 0)
  unfolding debit_counts
  crossing_once [] t b w e p = ground arith
  crossing_once (n ∷ ns) t b w e p = elim (Bool-cases (ltb n t)) [
    | inl h ↦
        let (same, left) = below n t b w e (ground arith) in
        let rest =
          crossing_once ns (t - n) (debit_token_count true n b w).0 (debit_token_count true n b w).1
            left (ground arith) in
        let logs = ap (λ (v : World). length v.log) same in ground arith
    | inr h ↦
        let (one, spent) = reaching n t b w e p (ground arith) in
        let logs =
          ap (λ (v : World). length v.log)
            (quiet_all ns (debit_token_count true n b w).0 (debit_token_count true n b w).1
              spent) in
        ground arith
  ]
