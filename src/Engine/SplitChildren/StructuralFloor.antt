-- ===== src/Engine/SplitChildren/StructuralFloor.antt =====
-- src/engine/structural-floor.ts: a map of the regions whose dive produced nothing.
use corellia.Prelude.{
  ℕ, suc, zero, ◌-◌, String, Option, none, some, List, [], ◌∷◌, map, filter, not, includes, str_eq,
  length, if◌then◌else◌, ◌==◌, ltb,
}
use corellia.Prelude.Text.{concat, join, show}
use corellia.Contract.Goal.{MemoryPointer, project, Trust}
use corellia.Engine.World.{World}

pub record RegionFileEntry : Type 0 where
  pub path : String
  pub lines : ℕ
  pub bytes : ℕ
  pub symbols : List String

-- A scan of the file system; none is a scan that throws.
abbrev pub RegionScanner : Type 0
RegionScanner = String → String → World → Option (List RegionFileEntry)

abbrev pub max_floor_files : ℕ
max_floor_files = 300

-- `entries.slice(0, n)`
unfoldable pub take : ℕ → List RegionFileEntry → List RegionFileEntry
take zero es = []
take (suc n) [] = []
take (suc n) (e ∷ es) = e ∷ take n es

-- `[...new Set(values)]`: the first of equal values stays.
unfoldable pub dedupe_from : List String → List String → List String
dedupe_from seen [] = []
dedupe_from seen (v ∷ vs) =
    let old = dedupe_from seen vs in
    let new = v ∷ dedupe_from (v ∷ seen) vs in if includes seen v then old else new

unfoldable pub dedupe : List String → List String
unfolding dedupe_from
dedupe values = dedupe_from [] values

unfoldable pub orientation_memory : List String → MemoryPointer
orientation_memory regions = record {
  id = "structural-floor:orientation";
  layer = project;
  namespace = none;
  content = concat (
      "STRUCTURAL FLOOR (provisional — the deep-dive for "
      ∷ (if length regions == 1 then "this region" else "these regions")
      ∷ " produced no usable facts, so these are raw structure pointers derived mechanically, not comprehension). "
      ∷ "Read the cited files before trusting any of it. Regions floored: "
      ∷ join ", " regions
      ∷ "."
      ∷ []);
  provenance = Trust.provisional;
}

unfoldable pub entry_line : RegionFileEntry → String
entry_line e =
    let symbols =
      if length e.symbols == 0 then "" else concat (" — exports: " ∷ join ", " e.symbols ∷ []) in
    concat ("  " ∷ e.path ∷ " (" ∷ show e.lines ∷ " lines, " ∷ show e.bytes ∷ " B)" ∷ symbols ∷ [])

unfoldable pub region_floor_memory : String → List RegionFileEntry → MemoryPointer
unfolding take entry_line
region_floor_memory region entries =
    let shown = take max_floor_files entries in
    let truncated = length entries - length shown in
    let header = concat (
      "structural floor for region "
      ∷ region
      ∷ ": "
      ∷ show (length entries)
      ∷ " file"
      ∷ (if length entries == 1 then "" else "s")
      ∷ []) in
    let note =
      if ltb 0 truncated
      then concat (
          "\n  … "
          ∷ show truncated
          ∷ " more file"
          ∷ (if truncated == 1 then "" else "s")
          ∷ " not shown (capped at "
          ∷ show max_floor_files
          ∷ ")."
          ∷ [])
      else "" in
    record {
      id = concat ("structural-floor:" ∷ region ∷ []);
      layer = project;
      namespace = none;
      content = concat (header ∷ "\n" ∷ join "\n" (map entry_line shown) ∷ note ∷ []);
      provenance = Trust.provisional;
    }

unfoldable pub safe_scan : RegionScanner → String → String → World → List RegionFileEntry
safe_scan scanner repo_root region w = elim (scanner repo_root region w) [
  | none ↦ []
  | some entries ↦ entries
]

unfoldable pub region_memories : RegionScanner → String → World → List String → List MemoryPointer
unfolding safe_scan
region_memories scanner repo_root w [] = []
region_memories scanner repo_root w (region ∷ regions) =
    let rest = region_memories scanner repo_root w regions in
    let entries = safe_scan scanner repo_root region w in
    if length entries == 0 then rest else region_floor_memory region entries ∷ rest

unfoldable pub structural_floor_memories :
    List String → RegionScanner → String → World → List MemoryPointer
unfolding dedupe
structural_floor_memories regions scanner repo_root w =
    let floored = filter (λ r. not (str_eq r "")) (dedupe regions) in
    let memories = region_memories scanner repo_root w floored in
    if length floored == 0
    then []
    else if str_eq repo_root ""
    then []
    else if length memories == 0
    then []
    else orientation_memory floored ∷ memories
