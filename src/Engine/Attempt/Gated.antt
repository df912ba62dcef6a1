-- ===== src/Engine/Attempt/Gated.antt =====
-- What a passed recheck of src/engine/attempt/recheck.ts says of the repaired artifact.
use corellia.Prelude.{
  ℕ, ◌≡◌, refl, sym, subst, ◌∙◌, String, Option, none, some, List, [], ◌∷◌, true, false, not, arith,
  all, if◌then◌else◌, Bool-cases, inl, inr,
}
use corellia.Contract.Goal.{Budget, Goal, Tier}
use corellia.Contract.GoalType.{DeterministicCheck, GoalTypeDef}
use corellia.Contract.Report.{Artifact}
use corellia.Engine.World.{World}
use corellia.Engine.DeterministicGate.{run_deterministic_gate, run_deterministic_gate-failing}
use corellia.Engine.Attempt.Recheck.{
  Judge, RecheckArtifactResult, recheck_judged, recheck_artifact_after_repair,
}

module _ (now : ℕ → ℕ) (judge : Judge) (def : GoalTypeDef) (goal : Goal) (artifact : Artifact)
    (budget : Budget) (tier : Tier) where
  -- The deterministic gate on the repaired artifact.
  abbrev pub gate_of : World → World
  gate_of w = (run_deterministic_gate now goal (some artifact) def.deterministic budget w).1

  judged-passed :
      (b : Budget) (o : Option String) (w : World)
      → (recheck_judged judge goal artifact b tier o w).0.passed ≡ true
      → (type : String) → o ≡ some type
      → (judge type goal artifact tier w).0.0.pass ≡ true
  unfolding recheck_judged
  judged-passed b none w h type e = cc
  judged-passed b (some t) w h type e =
      let same : t ≡ type = cc e in
      let passed : (judge t goal artifact tier w).0.0.pass ≡ true = ground arith in
      subst (λ x. (judge x goal artifact tier w).0.0.pass ≡ true) same passed

  gate_empty :
      (w : World) → (run_deterministic_gate now goal (some artifact) [] budget w).0.verdict ≡ none
  unfolding run_deterministic_gate
  gate_empty w = refl

  -- A repaired artifact passes the recheck only when it meets every deterministic check and, where
  -- its type has a judge, the judge passes it too.
  pub recheck_passed :
      (w : World)
      → (recheck_artifact_after_repair now judge def goal artifact budget tier w).0.passed ≡ true
      → (all (λ k. (k.run goal (some artifact)).ok) def.deterministic ≡ true)
        × ((type : String)
            → def.judge_type ≡ some type
            → (judge type goal artifact tier (gate_of w)).0.0.pass ≡ true)
  unfolding recheck_artifact_after_repair
  recheck_passed w h = go def.deterministic h
    where
      false-true : false ≡ true → ⊥
      false-true x = cc

      go :
          (cs : List DeterministicCheck)
          → (let (gate, w') = run_deterministic_gate now goal (some artifact) cs budget w in
              elim gate.verdict as (λ _. RecheckArtifactResult × World) [
                | none ↦ recheck_judged judge goal artifact gate.budget tier def.judge_type w'
                | some v ↦
                    if not v.pass
                    then (
                      record {
                        passed = false;
                        budget = gate.budget;
                        verdict = some v;
                        tier = tier;
                        ceiling = false;
                      },
                      w',
                    )
                    else recheck_judged judge goal artifact gate.budget tier def.judge_type w'
              ]).0.passed
            ≡ true
          → (all (λ k. (k.run goal (some artifact)).ok) cs ≡ true)
            × ((type : String)
                → def.judge_type ≡ some type
                → (judge type goal artifact tier
                    (run_deterministic_gate now goal (some artifact) cs budget w).1).0.0.pass
                  ≡ true)
      go [] k = (refl, judged-passed _ def.judge_type _ (rw (gate_empty w) at k))
      go (c ∷ cs) k =
          let (v, given, passes, _, _, _) =
            run_deterministic_gate-failing now goal (some artifact) c cs budget w in
          elim (Bool-cases v.pass) [
            | inr p ↦ absurd (false-true (rw p at (rw given at k)))
            | inl p ↦ (sym passes ∙ p, judged-passed _ def.judge_type _ (rw p at (rw given at k)))
          ]
