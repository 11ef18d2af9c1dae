-- ===== src/Monitor.antt =====
-- app/api/monitor.py on the tables of the catalogue.
mod Durations
mod Jobs
mod Flow
mod Packages
mod Board
mod Overview
mod Ordered
unfoldable pub use Durations.*
unfoldable pub use Jobs.*
unfoldable pub use Flow.*
unfoldable pub use Packages.*
unfoldable pub use Board.*
unfoldable pub use Overview.*
pub mod Sums
mod Days
mod Tallies
mod Attempts
mod Items
pub mod Agreement
pub mod Percentiles
