-- ===== src/Catalog.antt =====
-- app/catalog/catalog.py: the version catalogue of the packages.
pub mod State
pub mod Versions
pub mod Persist
pub mod Listing
pub mod Collect
