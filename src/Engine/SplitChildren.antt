-- ===== src/Engine/SplitChildren.antt =====
-- src/engine/split-children.ts and what it calls: the children of a split, and how they run.
pub mod KnowledgeMemory
pub mod StructuralFloor
pub mod DiveFloor
pub mod Goals
pub mod Prepare
pub mod Run
pub mod Work
pub mod Moves
pub mod Waits
pub mod Progress
