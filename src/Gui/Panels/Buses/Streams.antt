-- ===== src/Gui/Panels/Buses/Streams.antt =====
-- The number of streams that the panel shows is the number that `startReplayAll` starts.
use open_vbus.Gui.Model.{Model}
