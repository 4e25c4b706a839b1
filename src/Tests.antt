-- ===== src/Tests.antt =====
-- The theorems at concrete inputs, one module for each part.
pub mod Cache
pub mod Requests
pub mod Invalidations
pub mod Translations
pub mod Captures
pub mod Stream
pub mod Usbs
pub mod Transfers
pub mod Vectors
pub mod Levels
pub mod Prefixes
pub mod Routes
pub mod Controls
pub mod Spaces
pub mod Builds
pub mod Blocks
pub mod Links
pub mod Monitors
pub mod Socs
pub mod Hosts
