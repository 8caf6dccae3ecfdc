-- ===== src/Download.antt =====
-- src/lib/downloadWithCache.js: the policy on redirects, the cache on disk, and the map of running downloads.
pub mod Address
pub mod Cache
pub mod Inflight
pub mod Redirects
pub mod Settings
