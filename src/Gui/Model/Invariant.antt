-- ===== src/Gui/Model/Invariant.antt =====
-- What the operations of the GUI keep: sizes, and the numbers that the maps hold.
mod Holding
mod Whole
pub use Holding.*
pub use Whole.*
