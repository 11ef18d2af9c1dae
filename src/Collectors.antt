-- ===== src/Collectors.antt =====
-- app/catalog/collectors: what the collectors make of the answers of Aptoide and AppMagic.
mod Dates
mod Aptoide
mod AppMagic
pub mod Distinct
mod Bounds
mod Ranges
pub mod Summary
unfoldable pub use Dates.*
unfoldable pub use Aptoide.*
unfoldable pub use AppMagic.*
