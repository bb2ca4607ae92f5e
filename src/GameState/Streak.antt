-- ===== src/GameState/Streak.antt =====
-- The table of `gamestate_update_streak`: the records as a map on names, one call, and sequences of
-- calls.
mod Slots
mod Updates
mod Runs
mod Sizes
unfoldable pub use Slots.*
unfoldable pub use Updates.*
unfoldable pub use Runs.*
unfoldable pub use Sizes.*
