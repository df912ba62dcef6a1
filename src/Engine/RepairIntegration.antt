-- ===== src/Engine/RepairIntegration.antt =====
-- src/engine/repair-integration.ts: when an integration is repaired, and the child that repairs it.
-- `seen` and `union` hold the same paths and are one list here.
use corellia.Prelude.{
  ◌≡◌, ◌≢◌, ◌↔◌, ◌⊎◌, sym, subst, String, Option, none, some, List, [], ◌∷◌, ◌++◌, map, Bool, false,
  arith, any, includes, includes-In, In, In-append, In-append_left, In-append_right, All, filter,
  str_eq, str_eq→ne, if◌then◌else◌, Bool-cases, inl, inr,
}
use corellia.Prelude.Text.{concat, join}
use corellia.Contract.Json.{str, obj, field, end}
use corellia.Contract.Goal.{Goal}
use corellia.Contract.Decision.{ChildPlan}
use corellia.Contract.Verdict.{Dimension, Severity, Finding, Verdict}

unfoldable pub is_repairable_integration_verdict : Option Verdict → Bool
is_repairable_integration_verdict none = false
is_repairable_integration_verdict (some v) =
    if v.pass
    then false
    else if any (λ f. f.escalated) v.findings
    then false
    else any (λ f. f.gating) v.findings

unfoldable pub add_path : List String → String → List String
add_path union path = if includes union path then union else union ++ path ∷ []

unfoldable pub add_paths : List String → List String → List String
unfolding add_path
add_paths union [] = union
add_paths union (p ∷ ps) = add_paths (add_path union p) ps

unfoldable pub add_scopes : List String → List ChildPlan → List String
add_scopes union [] = union
add_scopes union (c ∷ cs) = add_scopes (add_paths union c.scope) cs

unfoldable pub union_scope : List ChildPlan → List String
union_scope children = add_scopes [] children

dimension_name : Dimension → String
dimension_name Dimension.spec = "spec"
dimension_name Dimension.security = "security"
dimension_name Dimension.contrarian = "contrarian"
dimension_name Dimension.robustness = "robustness"
dimension_name Dimension.efficiency = "efficiency"
dimension_name Dimension.convention = "convention"

severity_name : Severity → String
severity_name Severity.high = "high"
severity_name Severity.medium = "medium"
severity_name Severity.low = "low"

-- An empty prescription reads as none.
unfoldable pub render_finding : Finding → String
unfolding dimension_name severity_name
render_finding f =
    let note : String = elim f.prescription [
      | none ↦ ""
      | some p ↦ if str_eq p "" then "" else concat (" — fix: " ∷ p ∷ [])
    ] in
    concat (
      "["
      ∷ dimension_name f.dimension
      ∷ "/"
      ∷ severity_name f.severity
      ∷ "] "
      ∷ f.title
      ∷ note
      ∷ [])

unfoldable pub repair_description : Goal → Verdict → String
repair_description goal v = concat (
    "The integration judge failed the assembled work for \""
    ∷ goal.title
    ∷ "\". Fix the cross-module seam bugs it found, editing across the affected modules "
    ∷ "as needed. Do not re-scope the goal or change frozen contracts — apply the "
    ∷ "localized fixes below and leave the rest of the assembled work intact.\n\n"
    ∷ "Integration findings:\n"
    ∷ join "\n" (map (λ f. concat ("- " ∷ render_finding f ∷ [])) v.findings)
    ∷ [])

-- A share is in millionths.
unfoldable pub integration_repair_plan : Goal → Verdict → List ChildPlan → ChildPlan
integration_repair_plan goal v children = record {
  local_id = "repair-integration";
  type = "implement";
  title = concat ("Repair integration seam for \"" ∷ goal.title ∷ "\"" ∷ []);
  spec = obj (field "description" (str (repair_description goal v)) end);
  depends_on = [];
  scope = union_scope children;
  budget_share = 1000000;
  intent = none;
}

unfoldable pub repair_prescriptions : Verdict → List String
repair_prescriptions v =
    map (λ f. elim f.prescription [ none ↦ f.title | some p ↦ p ])
      (filter (λ f. f.gating) v.findings)

includes-ne : (xs : List String) (x : String) → includes xs x ≡ false → All (λ y. y ≢ x) xs
includes-ne [] x h = tt
includes-ne (y ∷ ys) x h = (str_eq→ne y x (ground arith), includes-ne ys x (ground arith))

In-add_path : (u : List String) (p x : String) → In x (add_path u p) ↔ In x u ⊎ (x ≡ p)
unfolding add_path
In-add_path u p x = elim (Bool-cases (includes u p)) [
  | inl e ↦ rw e (
    λ m. inl m,
    λ m. elim m [ inl k ↦ k | inr q ↦ subst (λ y. In y u) (sym q) (includes-In u p e) ],
  )
  | inr e ↦ rw e (
    λ m. elim (In-append u (p ∷ []) x m) [
      | inl k ↦ inl k
      | inr (inl q) ↦ inr q
      | inr (inr z) ↦ absurd z
    ],
    λ m. elim m [
      | inl k ↦ In-append_left u (p ∷ []) x k
      | inr q ↦ In-append_right u (p ∷ []) x (inl q)
    ],
  )
]

In-add_paths : (u ps : List String) (x : String) → In x (add_paths u ps) ↔ In x u ⊎ In x ps
unfolding add_paths
In-add_paths u [] x = (λ m. inl m, λ m. elim m [ inl k ↦ k | inr z ↦ absurd z ])
In-add_paths u (p ∷ ps) x =
    let rest = In-add_paths (add_path u p) ps x in let one = In-add_path u p x in ground arith

-- Some child's scope has the path.
abbrev pub InScope : String → List ChildPlan → Type 0
InScope x [] = ⊥
InScope x (c ∷ cs) = In x c.scope ⊎ InScope x cs

In-add_scopes :
    (u : List String) (cs : List ChildPlan) (x : String)
    → In x (add_scopes u cs) ↔ In x u ⊎ InScope x cs
unfolding add_scopes
In-add_scopes u [] x = (λ m. inl m, λ m. elim m [ inl k ↦ k | inr z ↦ absurd z ])
In-add_scopes u (c ∷ cs) x =
    let rest = In-add_scopes (add_paths u c.scope) cs x in
    let one = In-add_paths u c.scope x in ground arith

-- The scope of the repairing child has exactly the paths that some child's scope has.
pub repair_plan-InScope :
    (goal : Goal) (v : Verdict) (children : List ChildPlan) (x : String)
    → In x (integration_repair_plan goal v children).scope ↔ InScope x children
unfolding integration_repair_plan union_scope
repair_plan-InScope goal v children x = let known = In-add_scopes [] children x in ground arith
