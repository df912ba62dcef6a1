-- ===== src/Substrate/JobQueue.antt =====
-- src/substrate/memory-job-queue.ts: the job queue in process memory.
mod Patch
mod Table
mod Choice
mod Commands
mod Links
pub mod Invariant
pub mod Upkeep
pub mod History
pub mod Chosen
pub mod Order
pub mod Wellformed
pub mod Valid
pub mod Lifecycle
pub mod Moved
pub mod Lives
pub mod Exhausted
pub mod Claim
pub mod Apart
pub mod Idle
pub mod Ticks
pub mod Exclusive
pub mod Revival
pub mod Replies
pub mod Samples
mod Examples
unfoldable pub use Patch.*
unfoldable pub use Table.*
unfoldable pub use Choice.*
unfoldable pub use Commands.*
unfoldable pub use Links.*
