-- ===== src/Engine/Attempt/Tournament.antt =====
-- src/engine/attempt/leaf-tournament.ts: several artifacts for one goal, each judged, and the winner.
-- The tournament is run with a `k` above one; the brain is a parameter.
use corellia.Prelude.{
  ℕ, zero, suc, ◌-◌, ◌%◌, ◌≡◌, refl, String, Option, none, some, List, [], ◌∷◌, ◌++◌, true, false,
  any, filter, length, ltb, if◌then◌else◌, ◌==◌, arith, All, if_intro, sym, subst, ◌∙◌,
}
use corellia.Contract.Goal.{Budget, Goal, Tier, Usage}
use corellia.Contract.GoalType.{ScanPolicy}
use corellia.Contract.Report.{Artifact}
use corellia.Contract.Verdict.{Verdict}
use corellia.Engine.World.{World}
use corellia.Engine.TreeSpend.{debit_tree_state, has_reached_spend_ceiling}
use corellia.Engine.Budget.{debit_token_usage}
use corellia.Engine.Attempt.Recheck.{Judge}

pub record Candidate : Type 0 where
  pub artifact : Artifact
  pub verdict : Verdict

pub data LeafTournamentResult : Type 0 where
  winner : Artifact → Budget → LeafTournamentResult
  ceiling : Budget → LeafTournamentResult

abbrev pub fewer : Candidate → Candidate → Candidate
fewer best c = if ltb (length c.verdict.findings) (length best.verdict.findings) then c else best

unfoldable pub best_by_fewest_findings : Candidate → List Candidate → Candidate
best_by_fewest_findings best [] = best
best_by_fewest_findings best (c ∷ cs) = best_by_fewest_findings (fewer best c) cs

-- Of the candidates that pass, or of all where none does.
unfoldable pub select_winner : Candidate → List Candidate → Candidate
select_winner first rest = elim (filter (λ c. c.verdict.pass) (first ∷ rest)) [
  | [] ↦ best_by_fewest_findings first rest
  | c ∷ cs ↦ best_by_fewest_findings c cs
]

abbrev pub nth : List String → ℕ → Option String
nth [] n = none
nth (x ∷ xs) zero = some x
nth (x ∷ xs) (suc n) = nth xs n

-- `lenses[index % lenses.length] ?? lenses[0]`
abbrev pub lens_at : List String → ℕ → Option String
lens_at lenses index = if length lenses == 0 then none else nth lenses (index % length lenses)

-- What a tournament is given: the brain with a lens, or without, and the judge.
pub record Contest : Type 0 where
  pub now : ℕ → ℕ
  pub goal : Goal
  pub tier : Tier
  pub judge_type : String
  pub produce : Option String → World → (Artifact × Usage) × World
  pub judge : Judge

abbrev pub debited : Usage → World → World
debited usage w = record w { tree = debit_tree_state w.tree usage }

module _ (c : Contest) where
  -- A candidate's verdict, or none at the ceiling.
  unfoldable pub judge_candidate : Artifact → World → Option Candidate × World
  judge_candidate artifact w =
      let ((verdict, usage), w₁) = c.judge c.judge_type c.goal artifact c.tier w in
      let w₂ = debited usage w₁ in
      if has_reached_spend_ceiling w₂.tree
      then (none, w₂)
      else (some (record { artifact = artifact; verdict = verdict }), w₂)

  unfoldable pub produce_candidate :
      Budget → Option String → World → Option (Artifact × Budget) × World
  produce_candidate budget lens w =
      let ((artifact, usage), w₁) = c.produce lens w in
      let w₂ = debited usage w₁ in
      let (budget', w₃) = debit_token_usage c.now c.goal true usage budget w₂ in
      if has_reached_spend_ceiling w₂.tree then (none, w₂) else (some (artifact, budget'), w₃)

  -- The rest of the tournament, after the first candidates.
  unfoldable pub candidates_from :
      ℕ
      → ℕ
      → List String
      → Budget
      → Candidate
      → List Candidate
      → World
      → LeafTournamentResult × World
  candidates_from zero index lenses budget first rest w =
      (winner (select_winner first rest).artifact budget, w)
  candidates_from (suc left) index lenses budget first rest w =
      let (produced, w₁) = produce_candidate budget (lens_at lenses index) w in
      elim produced [
        | none ↦ (ceiling budget, w₁)
        | some (artifact, budget') ↦
            let (judged, w₂) = judge_candidate artifact w₁ in
            elim judged [
              | none ↦ (ceiling budget', w₂)
              | some candidate ↦
                  candidates_from left (suc index) lenses budget' first (rest ++ candidate ∷ []) w₂
            ]
      ]

  unfoldable pub run_leaf_tournament :
      Artifact → ScanPolicy → Budget → World → LeafTournamentResult × World
  run_leaf_tournament artifact scan budget w =
      let (judged, w₁) = judge_candidate artifact w in
      elim judged [
        | none ↦ (ceiling budget, w₁)
        | some first ↦ candidates_from (scan.k - 1) 1 scan.lenses budget first [] w₁
      ]

best-All :
    (P : Candidate → Type 0) (best : Candidate) (cs : List Candidate)
    → P best
    → All P cs
    → P (best_by_fewest_findings best cs)
unfolding best_by_fewest_findings
best-All P best [] h k = h
best-All P best (c ∷ cs) h (p, ps) =
    best-All P (fewer best c) cs
      (if_intro P (ltb (length c.verdict.findings) (length best.verdict.findings)) (λ _. p)
        (λ _. h))
      ps

passing-All :
    (cs : List Candidate) → All (λ c. c.verdict.pass ≡ true) (filter (λ c. c.verdict.pass) cs)
passing-All [] = tt
passing-All (c ∷ cs) =
    if_intro (All (λ x. x.verdict.pass ≡ true)) c.verdict.pass (λ t. (t, passing-All cs))
      (λ _. passing-All cs)

none_passing :
    (cs : List Candidate)
    → filter (λ c. c.verdict.pass) cs ≡ []
    → All (λ c. c.verdict.pass ≡ false) cs × (any (λ c. c.verdict.pass) cs ≡ false)
none_passing [] h = (tt, refl)
none_passing (c ∷ cs) h =
    let fails : c.verdict.pass ≡ false = ground arith in
    let (rest, hit) = none_passing cs (ground arith) in ((fails, rest), ground arith)

some_passing :
    (cs : List Candidate) (x : Candidate) (xs : List Candidate)
    → filter (λ c. c.verdict.pass) cs ≡ x ∷ xs
    → any (λ c. c.verdict.pass) cs ≡ true
some_passing [] x xs h = absurd (ground arith)
some_passing (c ∷ cs) x xs h = let rest = some_passing cs x xs in ground arith

-- The winner of a tournament has a verdict that passes exactly when some candidate's does.
pub select_winner-passes :
    (first : Candidate) (rest : List Candidate)
    → (select_winner first rest).verdict.pass ≡ any (λ c. c.verdict.pass) (first ∷ rest)
unfolding select_winner
select_winner-passes first rest = go (filter (λ c. c.verdict.pass) (first ∷ rest)) refl
  where
    go :
        (l : List Candidate)
        → filter (λ c. c.verdict.pass) (first ∷ rest) ≡ l
        → (elim l as (λ _. Candidate) [
          | [] ↦ best_by_fewest_findings first rest
          | c ∷ cs ↦ best_by_fewest_findings c cs
        ]).verdict.pass
          ≡ any (λ c. c.verdict.pass) (first ∷ rest)
    go [] e =
        let (fail, hit) = none_passing (first ∷ rest) e in
        best-All (λ c. c.verdict.pass ≡ false) first rest fail.0 fail.1 ∙ sym hit
    go (c ∷ cs) e =
        let ok = subst (All (λ x. x.verdict.pass ≡ true)) e (passing-All (first ∷ rest)) in
        best-All (λ x. x.verdict.pass ≡ true) c cs ok.0 ok.1
        ∙ sym (some_passing (first ∷ rest) c cs e)
