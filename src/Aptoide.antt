-- ===== src/Aptoide.antt =====
-- app/providers/aptoide.py: the provider that asks the API of Aptoide.
mod Payload
mod Requests
mod Entries
mod Files
mod Provider
mod Splits
pub mod Plans
pub mod Answers
pub mod Selection
pub mod Wishes
unfoldable pub use Payload.*
unfoldable pub use Requests.*
unfoldable pub use Entries.*
unfoldable pub use Files.*
unfoldable pub use Provider.*
