-- ===== src/Os.antt =====
-- The operating system as the programs see it: the calls (Vocabulary), the trace of a process and what it
-- holds (Ledger), processes as state passing (Process), the behaviour that the programs rely on (Law),
-- what a process owns as it goes on (Ownership, Rules), the loops over pages and bytes (Pages, Fill),
-- vectors of blocks (Chunks), temporary files (TempFile), the events of a run (Events), and two runs
-- side by side on one memory (Schedule, Reads).
mod Vocabulary
mod Ledger
mod Process
mod Law
mod Ownership
mod Rules
mod Pages
mod Chunks
mod Fill
mod TempFile
mod Events
mod Schedule
mod Reads
pub use Vocabulary.*
pub use Ledger.*
unfoldable pub use Process.*
pub use Law.*
pub use Ownership.*
pub use Rules.*
pub use Chunks.*
pub use Fill.*
pub use TempFile.*
pub use Pages.*
pub use Events.*
pub use Schedule.*
pub use Reads.*
