-- ===== src/Lib.antt =====
-- Corellia: a factory that splits a typed goal into a tree of goals, runs each through gates and
-- judges, keeps a log of events, and takes its commissions from a queue of jobs.
--
-- The parts, and the files that model them:
--
-- Contract/ models src/contract/: goals, decisions, reports, verdicts, knowledge, goal types, jobs
-- and the events of the log. A name in camelCase is here in snake_case; a variant of a union is a
-- constructor. An absent optional field is `none`; an optional flag is a Bool, and absent reads
-- false. Money is a whole number of millionths of a dollar, so that a sum is exact where the source
-- adds floating point numbers. A time is a whole number of milliseconds. A budget's counters go
-- below zero and are integers. `unknown` values are the JSON values of Contract/Json.
--
-- Listener/ScopeOverlap models src/listener/scope-overlap.ts, the rule by which two scopes
-- conflict, and Listener/Symmetric the rule with its scopes exchanged.
--
-- Substrate/JobQueue models src/substrate/memory-job-queue.ts: the class MemoryJobQueue as a record
-- of two maps and a clock. A map is the list of its values in insertion order. `now n` is the n-th
-- reading of the clock and `tick` counts the readings, so that two readings in one call may differ.
-- Patch holds what each transition writes over a job, Table the maps, Choice the candidates of
-- `claim` and `claim` itself, Commands the control plane's side and Links the worker's. A job that
-- the source clones is a value here. Each call runs to its end: the class awaits nothing inside a
-- call, so that calls do not interleave. History has the calls as data, and every sequence of them
-- as a run. Invariant, Upkeep, Chosen, Order, Wellformed, Valid, Lifecycle, Moved, Lives,
-- Exhausted, Claim, Apart, Idle, Ticks, Exclusive, Revival and Replies hold the proofs. Samples and
-- Examples run the queue.
--
-- Engine/World is what the engine's functions read and change besides their arguments: the spend of
-- the tree, the log, and the count of clock readings. Engine/TreeSpend models
-- src/engine/tree-spend.ts, Engine/Budget src/engine/budget.ts and budget-events.ts, Engine/Reports
-- src/engine/reports.ts and Engine/Blocking src/engine/blocking.ts. A tie in `toFixed` goes up
-- here.
--
-- Engine/Milestone models src/engine/milestone/: Outcome the decision after a round and the
-- blockers of what is unmet, Loop the loop `runMilestoneLoop` over the callbacks it is given, which
-- are a record of functions on the world, and Ends how it ends. The loop is recursion on fuel.
-- `effectiveMaxRounds + 1` turns are the fuel, since the decision after a round is `continue` only
-- below the bound.
--
-- Engine/DeterministicGate models src/engine/deterministic-gate.ts, and Engine/Attempt what becomes
-- of an attempt in src/engine/attempt/: State the state that is handed on (state.ts), Failure the
-- resolution of a failure (failure.ts), Recheck the gates after a repair (recheck.ts), Transition
-- the next attempt (failure-transition.ts, repair-flow.ts). The brain's repair, the judge and the
-- sentence on an empty artifact are parameters; a repair that throws gives none. An index of -1 on
-- the ladder is none. Refusal models delivery-refusal.ts, Authority src/engine/authority-gate.ts
-- with emission-authority.ts and the classification of src/library/risk.ts, Tournament
-- leaf-tournament.ts, StepLoopFailure step-loop-failure.ts with the failures of
-- src/engine/step-loop-result.ts, and Evaluation the gates of an artifact, artifact-evaluation.ts
-- with success.ts and failure-resolution.ts. Ladder, Retries, Gated, Stuck, Delivered, Honest and
-- Unjudged hold the proofs.
--
-- Engine/SplitValidation models src/engine/split-validation.ts: Shares the shares and their
-- renormalisation, Search the search for cycles with its two sets as state, on fuel of one more
-- than the children, which is enough since each call enters a child that is not in the stack, and
-- Check the dependencies and the whole validation. Sets, Graph, Found, Cycle, SetOf and Accepts
-- hold the proofs.
--
-- Engine/SplitChildren models src/engine/split-children.ts and what it calls: KnowledgeMemory
-- knowledge-memory.ts, StructuralFloor structural-floor.ts, DiveFloor dive-floor-handoff.ts, Goals
-- the goals of the children, Prepare what a child does before and after its run, and Run the round
-- of the children. The promises on which a child waits are the reports in the round's entries, and
-- a move is what one child does between two waits: `begin` once its dependencies have reported,
-- `end_child` with the report of its run. The order of the moves is free, and each is given the
-- world that it finds, so that what runs elsewhere may change it in between. Work, Moves, Waits and
-- Progress hold the proofs.
--
-- Engine/Coverage models src/library/coverage.ts (Policy), src/engine/coverage-checkpoint.ts
-- (Checkpoint), coverage-gate.ts (Paths and Inject) and coverage/split-gate.ts (SplitGate). The
-- stores of knowledge and the check of an artifact are parameters. Engine/SplitAcceptance models
-- src/engine/decision/split-acceptance.ts: Verdicts what is judged and logged of a split
-- (split-eval.ts, and the parts of must-decompose-guard.ts and judge-support.ts that are called),
-- Turn a turn of the loop, Loop the loop on fuel for its turns. The loop has no bound of its own;
-- the tree's ceiling ends it, and the fuel is counted from what may still be spent. Covered,
-- GateSpend, Proper, Priced, Climbs and Ends hold the proofs. Engine/Fallible is for calls that may
-- throw. SplitSamples and SplitExamples run these parts.
--
-- Engine/SplitRound models a round from where its children have reported,
-- src/engine/split-round.ts: Close the whole, Merge and Judge the two halves of
-- split-integration.ts, Integrate the judgment with one repair, Refresh checkpoint-verify.ts and
-- integrate-checkpoint.ts, Promotion and RoundReport the two halves of split-report.ts, Layer
-- memory-layer.ts. The shared store of memories is left out, the project's own, or a log apart. The
-- merge of comprehension artifacts, the judge and the files of a worktree are parameters. Judged,
-- Earned and Promoted hold the proofs. Engine/SplitDispatch models src/engine/split-dispatch.ts
-- over Substrate/PatternStore, which models src/substrate/memory-pattern-store.ts as the list of
-- its memos; Tally holds the proofs.
--
-- Engine/RepairIntegration models the verdict that is repaired and the plan of the child that
-- repairs it, of src/engine/repair-integration.ts.
--
-- Eventlog/Conformance models src/eventlog/conformance.ts and conformance/: a file for each check
-- and, beside it, one for what the check asks of a log (Gates for Ordering, HandsOff for
-- JudgeWrites, Nesting for Worktree). A map that is iterated is the list of its entries; one that
-- is only read is a function. Overshoot sets the check of the spend against the ceiling that
-- Engine/Blocking reports.
--
-- Prelude passes the library's names on, with the lemmas on lists, options, texts and numbers.
--
-- Not modelled: the calls of model providers (src/brains), the console and the daemon (console,
-- src/daemon), the stores on files and on Postgres (src/eventlog/jsonl-store.ts,
-- src/substrate/pg-*.ts), git and the sandboxes (src/engine/worktree.ts and its like), the prompts
-- and personas of src/library, since these are input and output or data. The loop over attempts
-- (src/engine/attempt/loop.ts and the production of artifacts beside it), the rest of the split
-- pipeline (src/engine/split-runner.ts and decision/phase.ts), the constitution
-- (src/library/constitution.ts) and the other projections of src/eventlog are left out.
pub mod Prelude
pub mod Contract
pub mod Listener
pub mod Substrate
pub mod Engine
pub mod Eventlog
