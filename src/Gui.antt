-- ===== src/Gui.antt =====
-- Parts of the GUI.
pub mod Ring
pub mod Client
pub mod Filters
pub mod Model
pub mod Panels
pub mod Window
pub mod Main
pub mod Desk
