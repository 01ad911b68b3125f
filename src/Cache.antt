-- ===== src/Cache.antt =====
-- `src/cache.rs`: the cache of the payloads seen last, and what identifies a payload.
mod Defs
mod Window
pub mod PayloadCache
pub use Defs.{Cache}
unfoldable pub use Defs.{new, contains, add}
pub use Window.*
