-- ===== src/Engine/TreeSpend.antt =====
-- src/engine/tree-spend.ts: the dollar ceiling and the deadline that a whole tree shares.
use corellia.Prelude.{
  ℕ, ◌+◌, ◌*◌, ◌≡◌, Option, none, some, List, [], ◌∷◌, Bool, true, false, arith, leb,
}
use corellia.Contract.Goal.{Usage}
use corellia.Engine.World.{TreeState}

-- $15
abbrev pub default_spend_ceiling_usd : ℕ
default_spend_ceiling_usd = 15000000

-- $0.000025 for a token
abbrev pub worst_case_price_per_token : ℕ
worst_case_price_per_token = 25

unfoldable pub create_tree_state : Option ℕ → Option ℕ → TreeState
create_tree_state ceiling deadline = record {
  spent_usd = 0;
  ceiling_usd = elim ceiling [ none ↦ default_spend_ceiling_usd | some c ↦ c ];
  deadline = deadline;
  ceiling_emitted = false;
}

unfoldable pub has_reached_tree_deadline : TreeState → ℕ → Bool
has_reached_tree_deadline t now = elim t.deadline [ none ↦ false | some d ↦ leb d now ]

unfoldable pub debit_tree_state : TreeState → Usage → TreeState
debit_tree_state t usage = elim usage.cost_usd [
  | some cost ↦ record t { spent_usd = t.spent_usd + cost }
  | none ↦ record t {
    spent_usd =
        t.spent_usd + (usage.prompt_tokens + usage.completion_tokens) * worst_case_price_per_token;
  }
]

unfoldable pub has_reached_spend_ceiling : TreeState → Bool
has_reached_spend_ceiling t = leb t.ceiling_usd t.spent_usd

unfoldable pub debit_all : TreeState → List Usage → TreeState
debit_all t [] = t
debit_all t (u ∷ us) = debit_all (debit_tree_state t u) us

ceiling_step :
    (t : TreeState) (u : Usage)
    → has_reached_spend_ceiling t ≡ true
    → has_reached_spend_ceiling (debit_tree_state t u) ≡ true
unfolding has_reached_spend_ceiling debit_tree_state
ceiling_step t u h = ground arith

-- A ceiling that is reached stays reached, whatever usages are debited after.
ceiling_stays :
    (t : TreeState) (us : List Usage)
    → has_reached_spend_ceiling t ≡ true
    → has_reached_spend_ceiling (debit_all t us) ≡ true
unfolding debit_all
ceiling_stays t [] h = h
ceiling_stays t (u ∷ us) h = ceiling_stays (debit_tree_state t u) us (ceiling_step t u h)

-- What the usages cost: their reported cost, or the worst case of their tokens.
abbrev pub total_cost : List Usage → ℕ
total_cost [] = 0
total_cost (u ∷ us) =
    let rest = total_cost us in
    elim u.cost_usd [
      | some cost ↦ cost + rest
      | none ↦ (u.prompt_tokens + u.completion_tokens) * worst_case_price_per_token + rest
    ]
