-- ===== src/Engine/Attempt/Retries.antt =====
-- How often src/engine/attempt/ retries without a repair.
use corellia.Prelude.{
  ℕ, suc, ◌+◌, ◌*◌, ◌≤◌, ◌<◌, ◌≡◌, ◌⊎◌, refl, sym, ap, ◌∙◌, subst, inl, inr, Option, none, some,
  List, ◌∷◌, Bool, true, false, not, arith, length, Bool-cases, Option-cases,
}
use corellia.Contract.Goal.{Budget, Tier}
use corellia.Contract.Report.{Report}
use corellia.Contract.Verdict.{Finding, Verdict}
use corellia.Engine.World.{World}
use corellia.Engine.Attempt.State.{
  AttemptPrior, AttemptRetryState, ArtifactFailureTransition, retry,
}
use corellia.Engine.Attempt.Failure.{
  AttemptFailureResolution, repaired, escalated, block, Failed, Means, is_transport, is_some_of,
  transport, next_rung, climb, after_repair, try_repair, block_with_report, prescribed_repairs,
  resolve_attempt_failure,
}
use corellia.Engine.Attempt.Transition.{
  tier_index_for, Finish, transition_artifact_failure, verdict_with_step_loop_finding,
}
use corellia.Engine.Attempt.Ladder.{IsStrict, rank, rank-climb}

-- Whether the attempt before this one was lost in transport.
abbrev pub lost_before : Failed → Bool
lost_before f = elim f.prior_attempt [ none ↦ false | some p ↦ is_transport p.verdict ]

abbrev pub Climbs : Means → Failed → AttemptFailureResolution → Type 0
Climbs m f (escalated t b) =
    (next_rung m.tier_ladder f.tier_index ≡ some t)
    ⊎ ((next_rung m.tier_ladder f.tier_index ≡ none)
        × (t ≡ f.tier)
        × (is_transport f.verdict ≡ true)
        × (lost_before f ≡ false))
Climbs m f _ = Unit

again-not :
    (f : Failed)
    → (elim f.prior_attempt [ none ↦ true | some p ↦ not (is_transport p.verdict) ])
      ≡ not (lost_before f)
again-not f = go f.prior_attempt
  where
    go :
        (o : Option AttemptPrior)
        → (elim o [ none ↦ true | some p ↦ not (is_transport p.verdict) ])
          ≡ not (elim o [ none ↦ false | some p ↦ is_transport p.verdict ])
    go none = refl
    go (some p) = refl

module _ (m : Means) (f : Failed) where
  climb-Climbs : (w : World) → Climbs m f (climb m f w).0
  unfolding climb block_with_report
  climb-Climbs w = elim (Option-cases (next_rung m.tier_ladder f.tier_index)) [
    | inr (t, e) ↦ rw (e, climb) (inl e)
    | inl e ↦ elim (Bool-cases (is_transport f.verdict)) [
      | inr q ↦ rw (e, climb) (rw q tt)
      | inl q ↦ elim (Bool-cases (lost_before f)) [
        | inl p ↦ rw (e, climb) (rw (q, again-not f) (rw p tt))
        | inr p ↦ rw (e, climb) (rw (q, again-not f) (rw p (inr (e, refl, q, p))))
      ]
    ]
  ]

  resolve-Climbs : (w : World) → Climbs m f (resolve_attempt_failure m f w).0
  unfolding resolve_attempt_failure try_repair after_repair block_with_report
  resolve-Climbs w =
      let (result, w') =
        m.repair f.goal f.artifact (prescribed_repairs f.verdict.findings) f.tier w in
      ground (arith, climb-Climbs w, climb-Climbs w')

-- The failure after a retry: of whatever artifact and verdict, at the retry's tier and index.
pub record IsNext {Transcript : Type 0} (r : AttemptRetryState Transcript) (g : Failed)
    : Type 0 where
  pub at_tier : g.tier ≡ r.tier
  pub at_index : g.tier_index ≡ r.tier_index
  pub after : g.prior_attempt ≡ some r.prior_attempt

abbrev pub is_repaired : AttemptFailureResolution → Bool
is_repaired (repaired artifact budget) = true
is_repaired _ = false

module _ {Transcript : Type 0} (m : Means) (fin : Finish) (tail : Option Finding)
    (transcript : Option Transcript) where
  -- A failed attempt, retried without a repair, and the next failure.
  pub record Again (f g : Failed) : Type 0 where
    pub world : World
    pub unrepaired : is_repaired (resolve_attempt_failure m f world).0 ≡ false
    pub next : AttemptRetryState Transcript
    pub retried : (transition_artifact_failure m fin tail transcript f world).0 ≡ retry next
    pub is_next : IsNext next g

  pub data AgainTimes : ℕ → Failed → Failed → Type 0 where
    stop : {f : Failed} → AgainTimes 0 f f
    more : {n : ℕ} {f g h : Failed} → Again f g → AgainTimes n g h → AgainTimes (suc n) f h

  Resolution-cases :
      (o : AttemptFailureResolution)
      → (is_repaired o ≡ true)
        ⊎ ((t : Tier) × (b : Budget) × (o ≡ escalated t b))
        ⊎ ((r : Report) × (o ≡ block r))
  Resolution-cases (repaired artifact budget) = inl refl
  Resolution-cases (escalated t b) = inr (inl (t, b, refl))
  Resolution-cases (block r) = inr (inr (r, refl))

  tail-signature :
      (v : Verdict)
      → (verdict_with_step_loop_finding v tail).failure_signature ≡ v.failure_signature
  unfolding verdict_with_step_loop_finding
  tail-signature v = go tail
    where
      go :
          (o : Option Finding)
          → (elim o as (λ _. Verdict) [
            | none ↦ v
            | some x ↦ record v { findings = x ∷ v.findings }
          ]).failure_signature
            ≡ v.failure_signature
      go none = refl
      go (some x) = refl

  abbrev retrying : AttemptRetryState Transcript → ArtifactFailureTransition Transcript
  retrying r = retry r

  abbrev stopping : Report → ArtifactFailureTransition Transcript
  stopping r = ArtifactFailureTransition.blocked r

  -- What a retry without a repair is known to hold.
  retried-facts :
      (f : Failed) (w : World) (next : AttemptRetryState Transcript)
      → is_repaired (resolve_attempt_failure m f w).0 ≡ false
      → (transition_artifact_failure m fin tail transcript f w).0 ≡ retry next
      → Climbs m f (escalated next.tier next.budget)
        × (next.tier_index ≡ tier_index_for m.tier_ladder next.tier)
        × (is_transport next.prior_attempt.verdict ≡ is_transport f.verdict)
  unfolding transition_artifact_failure
  retried-facts f w next u h = elim (Resolution-cases (resolve_attempt_failure m f w).0) [
    | inl r ↦ absurd (true-false (sym r ∙ u))
    | inr (inr (r, e)) ↦ absurd (blocked-retry (rw (e, transition_artifact_failure) at h))
    | inr (inl (t, b, e)) ↦
        let known = rw e at (resolve-Climbs m f w) in
        let same = retry-inj (rw (e, transition_artifact_failure) at h) in
        subst
          (λ (x : AttemptRetryState Transcript).
            Climbs m f (escalated x.tier x.budget)
            × (x.tier_index ≡ tier_index_for m.tier_ladder x.tier)
            × (is_transport x.prior_attempt.verdict ≡ is_transport f.verdict))
          same (known, refl, ap (λ o. is_some_of o transport) (tail-signature f.verdict))
  ]
    where
      true-false : true ≡ false → ⊥
      true-false x = cc

      blocked-retry : {r : Report} → stopping r ≡ retry next → ⊥
      blocked-retry x = cc

      retry-inj : {a b : AttemptRetryState Transcript} → retrying a ≡ retry b → a ≡ b
      retry-inj x = cc

  -- A retry without a repair lowers the rank, and leaves the index the one of the tier.
  Again-rank :
      (f g : Failed)
      → IsStrict m.tier_ladder
      → f.tier_index ≡ tier_index_for m.tier_ladder f.tier
      → Again f g
      → (rank m.tier_ladder g.tier_index (lost_before g)
          < rank m.tier_ladder f.tier_index (lost_before f))
        × (g.tier_index ≡ tier_index_for m.tier_ladder g.tier)
  Again-rank f g strict at a =
      let (climbs, index, lost) = retried-facts f a.world a.next a.unrepaired a.retried in
      let n = a.is_next in
      let lost_g : lost_before g ≡ is_transport f.verdict =
        ap (λ o. elim o as (λ _. Bool) [ none ↦ false | some p ↦ is_transport p.verdict ]) n.after
        ∙ lost in
      let index_g : g.tier_index ≡ tier_index_for m.tier_ladder a.next.tier = n.at_index ∙ index in
      (
        elim climbs [
          | inl up ↦
              subst
                (λ i.
                  rank m.tier_ladder i (lost_before g)
                  < rank m.tier_ladder f.tier_index (lost_before f))
                (sym index_g)
                (rank-climb m.tier_ladder f.tier_index (lost_before f) (lost_before g) strict up)
          | inr (top, same, transported, once) ↦
              let kept : g.tier_index ≡ f.tier_index =
                index_g ∙ ap (tier_index_for m.tier_ladder) same ∙ sym at in
              let first : lost_before g ≡ true = lost_g ∙ transported in
              rw (kept, first, once) (omega arith)
        ],
        index_g ∙ ap (tier_index_for m.tier_ladder) (sym n.at_tier),
      )

  -- On a ladder with no tier twice, from a failed attempt whose index is that of its tier, the
  -- attempts that fail one after the other and are retried without a repair are at most twice the
  -- ladder's length and one.
  pub retries_bounded :
      (n : ℕ) (f g : Failed)
      → IsStrict m.tier_ladder
      → f.tier_index ≡ tier_index_for m.tier_ladder f.tier
      → AgainTimes n f g
      → n ≤ 2 * length m.tier_ladder + 1
  retries_bounded n f g strict at run =
      let top = rank-top m.tier_ladder f.tier_index (lost_before f) in
      omega (arith, top, counted n f g strict at run)
    where
      counted :
          (k : ℕ) (a b : Failed)
          → IsStrict m.tier_ladder
          → a.tier_index ≡ tier_index_for m.tier_ladder a.tier
          → AgainTimes k a b
          → k ≤ rank m.tier_ladder a.tier_index (lost_before a)
      counted k a b s e stop = omega arith
      counted k a b s e (more x y) =
          let (less, index) = Again-rank a _ s e x in omega (arith, less, counted _ _ b s index y)

      rank-top :
          (ladder : List Tier) (i : Option ℕ) (l : Bool) → rank ladder i l ≤ 2 * length ladder + 1
      rank-top ladder none l = ground arith
      rank-top ladder (some i) l = ground arith
