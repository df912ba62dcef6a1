-- ===== src/Engine/SplitChildren/KnowledgeMemory.antt =====
-- src/engine/knowledge-memory.ts: the facts of region dives as memories.
-- A read of the knowledge store may change with the world; none is a read that throws.
use corellia.Prelude.{
  ℕ, suc, String, Option, none, some, List, [], ◌∷◌, ◌++◌, map, Bool, ◌&&◌, not, str_eq,
  if◌then◌else◌,
}
use corellia.Prelude.Text.{concat, join, show}
use corellia.Contract.Goal.{MemoryPointer, project, Trust}
use corellia.Contract.Knowledge.{Anchor, DiveFact, RegionFacts}
use corellia.Engine.World.{World}

abbrev pub FactsForRegions : Type 0
FactsForRegions = String → List String → World → Option (List RegionFacts)

unfoldable pub anchor_text : Anchor → String
anchor_text a = concat (a.path ∷ ":" ∷ show a.line ∷ [])

unfoldable pub fact_to_memory : Bool → String → ℕ → DiveFact → MemoryPointer
unfolding anchor_text
fact_to_memory fresh region index fact =
    let anchors = join ", " (map anchor_text fact.anchors) in
    record {
      id = concat ("dive:" ∷ region ∷ "#" ∷ show index ∷ []);
      layer = project;
      namespace = none;
      content =
          if str_eq anchors "" then fact.claim else concat (fact.claim ∷ " — " ∷ anchors ∷ []);
      provenance = if fresh then Trust.trusted else Trust.provisional;
    }

unfoldable pub facts_to_memories : Bool → String → ℕ → List DiveFact → List MemoryPointer
unfolding fact_to_memory
facts_to_memories fresh region index [] = []
facts_to_memories fresh region index (f ∷ fs) =
    fact_to_memory fresh region index f ∷ facts_to_memories fresh region (suc index) fs

unfoldable pub region_facts_to_memories : List RegionFacts → String → List MemoryPointer
unfolding facts_to_memories
region_facts_to_memories [] head_sha = []
region_facts_to_memories (r ∷ rs) head_sha =
    let fresh = not (str_eq head_sha "") && str_eq r.generated_at_sha head_sha in
    facts_to_memories fresh r.region 0 r.facts ++ region_facts_to_memories rs head_sha

unfoldable pub dive_facts_as_memories :
    Option FactsForRegions → String → List String → String → World → List MemoryPointer
dive_facts_as_memories none repo_root scope head_sha w = []
dive_facts_as_memories (some facts_for_regions) repo_root scope head_sha w =
    if str_eq repo_root "" then [] else elim (facts_for_regions repo_root scope w) [
      | none ↦ []
      | some facts ↦ region_facts_to_memories facts head_sha
    ]
