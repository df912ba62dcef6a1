-- ===== src/Engine/Coverage/Policy.antt =====
-- src/library/coverage.ts: the policy table, and which of its requirements are unmet.
use corellia.Prelude.{
  String, Option, none, some, List, [], ◌∷◌, ◌++◌, Bool, true, false, not, ◌&&◌, ◌||◌, any, all,
  includes, str_eq, length, if◌then◌else◌, ◌==◌,
}
use corellia.Prelude.Text.{concat}
use corellia.Contract.Goal.{Kind}
use corellia.Contract.Knowledge.{
  KnowledgeCategory, architecture, stack, conventions, design_system, deps, test_scaffold,
  credentials,
}
use corellia.Engine.Coverage.Paths.{region_key}

-- The regions with what is known of their existence, the last entry of a region counting.
pub record CoverageGoal : Type 0 where
  pub kind : Kind
  pub is_root_split : Bool
  pub scope : List String
  pub type_name : String
  pub exists_by_region : List (String × Bool)

pub record CoverageArtifact : Type 0 where
  pub category : KnowledgeCategory
  pub generated_at_sha : String
  pub repo_root : String

pub record CoverageRegionFact : Type 0 where
  pub repo_root : String
  pub region : String
  pub generated_at_sha : String

pub record KnowledgeForCoverage : Type 0 where
  pub artifacts : List CoverageArtifact
  pub region_facts : List CoverageRegionFact
  pub head_sha : String

pub record MissingRequirement : Type 0 where
  pub category : KnowledgeCategory
  pub region : Option String
  pub reason : String

pub record CoverageCheckResult : Type 0 where
  pub ok : Bool
  pub missing : List MissingRequirement

abbrev pub category_name : KnowledgeCategory → String
category_name architecture = "architecture"
category_name stack = "stack"
category_name conventions = "conventions"
category_name design_system = "design-system"
category_name deps = "deps"
category_name test_scaffold = "test-scaffold"
category_name credentials = "credentials"

-- The members of a category are told apart by their texts, as in the source.
abbrev pub same_category : KnowledgeCategory → KnowledgeCategory → Bool
same_category a b = str_eq (category_name a) (category_name b)

-- `byCategory.get(category)`: the last artifact of a category counts.
unfoldable pub by_category : List CoverageArtifact → KnowledgeCategory → Option CoverageArtifact
by_category [] c = none
by_category (a ∷ as') c = elim (by_category as' c) [
  | some b ↦ some b
  | none ↦ if same_category a.category c then some a else none
]

-- `existsByRegion[region] !== false`
unfoldable pub known_new : List (String × Bool) → String → Option Bool
known_new [] region = none
known_new ((r, there) ∷ es) region = elim (known_new es region) [
  | some b ↦ some b
  | none ↦ if str_eq r region then some there else none
]

unfoldable pub region_exists : CoverageGoal → String → Bool
unfolding known_new
region_exists goal region = elim (known_new goal.exists_by_region region) [
  | none ↦ true
  | some b ↦ b
]

-- The policy table.
abbrev pub root_split_categories : List KnowledgeCategory
root_split_categories = architecture ∷ stack ∷ []

abbrev pub code_leaf_categories : List KnowledgeCategory
code_leaf_categories = architecture ∷ conventions ∷ []

abbrev pub characterize_categories : List KnowledgeCategory
characterize_categories = architecture ∷ conventions ∷ test_scaffold ∷ []

abbrev pub characterize_type_names : List String
characterize_type_names = "characterize" ∷ []

unfoldable pub required_categories : CoverageGoal → List KnowledgeCategory
unfolding region_exists
required_categories goal =
    let scoped = not (length goal.scope == 0) in
    let greenfield_root_split =
      goal.is_root_split
      && (scoped && all (λ s. not (region_exists goal (region_key s))) goal.scope) in
    let scoped_root_split = goal.is_root_split && scoped in
    let scoped_code_leaf = not goal.is_root_split && scoped in
    if greenfield_root_split || scoped_root_split
    then []
    else if goal.is_root_split
    then root_split_categories
    else if includes characterize_type_names goal.type_name
    then characterize_categories
    else if scoped_code_leaf
    then []
    else code_leaf_categories

unfoldable pub no_artifact : KnowledgeCategory → String
no_artifact c = concat (
    "No "
    ∷ category_name c
    ∷ " artifact exists — must be generated before this split can proceed"
    ∷ [])

unfoldable pub stale_artifact : KnowledgeCategory → String → String → String
stale_artifact c sha head_sha = concat (
    category_name c
    ∷ " artifact is stale (generated at "
    ∷ sha
    ∷ ", HEAD is "
    ∷ head_sha
    ∷ ") — verify-on-read will validate; if invalid a refresh is needed"
    ∷ [])

unfoldable pub check_category :
    KnowledgeForCoverage → List KnowledgeCategory → KnowledgeCategory → Option MissingRequirement
unfolding by_category
check_category k validated c = elim (by_category k.artifacts c) [
  | none ↦ some (record { category = c; region = none; reason = no_artifact c })
  | some a ↦
      if not (str_eq a.generated_at_sha k.head_sha) && not (any (same_category c) validated)
      then some (record {
        category = c;
        region = none;
        reason = stale_artifact c a.generated_at_sha k.head_sha;
      })
      else none
]

unfoldable pub check_categories :
    KnowledgeForCoverage → List KnowledgeCategory → List KnowledgeCategory → List MissingRequirement
check_categories k validated [] = []
check_categories k validated (c ∷ cs) =
    let rest = check_categories k validated cs in
    elim (check_category k validated c) [ none ↦ rest | some m ↦ m ∷ rest ]

-- A region that exists and has no dive at HEAD.
unfoldable pub region_covered : KnowledgeForCoverage → String → Bool
region_covered k region =
    any (λ f. str_eq f.generated_at_sha k.head_sha && str_eq f.region region) k.region_facts

unfoldable pub check_regions :
    CoverageGoal → KnowledgeForCoverage → List String → List MissingRequirement
check_regions goal k [] = []
check_regions goal k (s ∷ ss) =
    let region = region_key s in
    let rest = check_regions goal k ss in
    if not (region_exists goal region)
    then rest
    else if region_covered k region
    then rest
    else record {
      category = architecture;
      region = some region;
      reason =
          concat (
            "No deep-dive-region artifact for region \"" ∷ region ∷ "\" at SHA " ∷ k.head_sha ∷ []);
    }
      ∷ rest

abbrev pub is_make : Kind → Bool
is_make Kind.make = true
is_make Kind.learn = false
is_make Kind.judge = false
is_make Kind.evolve = false

-- Only goals that make something need knowledge first.
unfoldable pub coverage_check :
    CoverageGoal → KnowledgeForCoverage → List KnowledgeCategory → CoverageCheckResult
coverage_check goal k validated =
    let missing =
      check_categories k validated (required_categories goal) ++ check_regions goal k goal.scope in
    if is_make goal.kind
    then record { ok = length missing == 0; missing = missing }
    else record { ok = true; missing = [] }
