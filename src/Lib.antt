-- ===== src/Lib.antt =====
-- OpenVBus: virtual Ethernet and CAN buses behind a daemon, with recording, replay, capture and
-- forwarding, and a GUI that shows the frames.
--
-- The daemon (vbus/src/daemon/vbusd.cpp) keeps a table of buses and serves one command to a message
-- on a named pipe. A bus (vbus/src/bus) that is asked to send a frame stamps it, hands it to its
-- forward callback at once, and posts a delivery to the scheduler (vbus/src/core); the daemon's main
-- loop runs what is due: the frame goes to the recorder, to the subscriber's pipe and to the
-- endpoints. Recordings are capture files (vbus/src/taps); sockets feed buses and are fed by them
-- (vbus/src/net). The GUI (vbus-gui/src) and vbusctl send commands over the same pipe, and the GUI
-- reads the frames of its subscriptions from it.
--
-- Files:
--   Base           tests on numbers, lists, bytes, texts and association lists; no code of the program
--   Io             the file streams that the recorder and the replayer use, as the standard has them
--   Frame          vbus/src/bus/frame.h: Frame, hex_to_bytes
--   Vcap           vbus/src/taps/recorder.*: VCapHeader, VCapRec, Recorder (open_recorder, write_frame,
--                  close_recorder) and Replayer (open_replayer, next)
--   Scheduler      vbus/src/core: Scheduler (post; run_until is snapshot_until and call_all, run is
--                  snapshot_all and call_all)
--   Bus            vbus/src/bus/{eth_bus,can_bus}.*: Connect, Disconnect, the callbacks, Send, and the
--                  scheduled lambda (deliver)
--   Net            vbus/src/net: start and stop of the capture endpoints, the frames that they make, and
--                  the forwarder; Relay has the loops of UdpEndpoint and TcpProxy
--   Daemon         vbusd.cpp: Numbers (std::stoul), Replies, State (the globals and their helpers),
--                  Commands (split and the choice of a branch), Handler (the branches of handle_cmd),
--                  Sync (replay-sync), Pacing (the replay threads), Serve (the loops), Buses (the
--                  table), Sending and Subscribing (what commands leave), Recording (what the main loop
--                  records), and Invariant
--   Pipe           the client's end of the daemon's pipe, as the operating system has it
--   Gui/Client     vbus-gui/src/daemon_client.*: Commands (sendCmd, subscribe), and the reader of
--                  streamed frames
--   Gui/Ring       vbus-gui/src/util/ringbuffer.h
--   Gui/Filters    vbus-gui/src/model.cpp: glob_match, passes_filters
--   Gui/Model      vbus-gui/src/{app_state,model}.*: Buses (newBus, deleteBus, subscriptions, newProject),
--                  Capture (attachIface, detachIface, backends/iface_mock.*), Records (recording and
--                  forwarding), Replays, Tick, Projects and Files (project.*), Actions (a user's
--                  session); Invariant and the modules Preserved have what all of them keep
--   Gui/Panels     vbus-gui/src/panels: Buses, Inspector, Rules (panel_filters and panel_log), Packets and
--                  Vlans, as changes of the model; Kept and Idle have what all of them keep, and what
--                  they leave alone
--   Gui/Window     vbus-gui/src/imgui_layer.cpp: DrawDockspace with its shortcuts, menus and dialogs
--   Gui/Main       vbus-gui/src/main.cpp: main and its loop; Gui/Desk has what a run needs around it
--   Cli            vbus/src/cli/vbusctl.cpp
--   Link           the pipe with the daemon of the model at its other end
--   Bench          vbus/src/cli/vbus_bench.cpp: Arguments (main), Sender (the paced loops), Report (the
--                  reporter and the sink), Sockets (the whole runs, with their sockets and exit codes)
--
-- Conventions. Numbers are natural numbers; 64-, 32- and 16-bit arithmetic has its wrap-around written
-- out. A SimTime is a bit pattern, ordered as the signed number that it stands for. Objects behind
-- pointers are known by address. What the clock, the file system, the resolver and the sockets answer
-- are arguments; the priority queue, the pipe, JSON and what else surrounds the GUI are records of
-- operations. An uncaught exception is the outcome `terminated`, and a use of a destroyed object is the
-- event `fault`. A replay thread has the clock's readings as a list, in its order, and the product of a
-- time with a double and the answers of inet_pton and sendto as parameters. A pipe in message mode
-- gives a message whole, or in parts where the reader's buffer is shorter.
-- ImGui is a screen: for each widget, by its window and label, what the user did with it in this frame.
--
-- Bounds. The loops of run_until and run have the queue's length as fuel, which each pass makes
-- smaller. The replay of a file has one more than its bytes behind the header as fuel, and each frame
-- takes 32 bytes at least; the theorems on replays say that a result is returned. The loops of
-- newProject and loadProject have the number of buses as fuel. The loops of the benchmark, of the
-- endpoints, of the proxy and of the GUI go over what the clock, the sockets and the user answer, turn
-- by turn.
--
-- Not modelled: the locks, since each command, each delivery and each frame of the GUI is one step; the
-- options of sockets; what the GUI only draws, with GLFW and OpenGL, of which only the answers enter;
-- the stub of a capture library; the client library, a placeholder; the OpenGL loader, which is
-- generated.
mod Base
pub mod Io
pub mod Frame
pub mod Vcap
pub mod Scheduler
pub mod Bus
pub mod Net
pub mod Daemon
pub mod Pipe
pub mod Gui
pub mod Cli
pub mod Link
pub mod Bench
