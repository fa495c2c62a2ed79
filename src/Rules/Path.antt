-- ===== src/Rules/Path.antt =====
-- `isPathClear` against its meaning: the squares strictly between two squares of a line.
mod Walk
mod Loop
pub use Walk.*
pub use Loop.*
