-- ===== src/GoMap.antt =====
-- Go's `map[string]V` as an association list. A loop over a map visits the entries in an order that
-- the runtime chooses; the functions here do not depend on the order.
mod Defs
mod Laws
mod Keys
unfoldable pub use Defs.*
pub use Laws.*
pub use Keys.*
