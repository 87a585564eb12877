-- ===== src/Models.antt =====
-- pkg/core/models.go: the names of events, providers, tiers and states, and the records that the
-- parts of the program hand to one another.
-- The enumerations are texts in the source, and a payload may hold any text there, so they are texts
-- here. A record keeps the fields that the modelled code reads or writes.
mod Int
mod Config
mod Task
mod Pod
mod Runs
pub use Int.*
pub use Config.*
pub use Task.*
unfoldable pub use Pod.*
pub use Runs.*
