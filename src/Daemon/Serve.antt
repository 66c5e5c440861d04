-- ===== src/Daemon/Serve.antt =====
-- The connection thread, the main loop and the end of `main` in vbusd.cpp.
use open_vbus.Base.{
  Bool, true, Option, none, some, List, [], ◌∷◌, ◌++◌, Text, Heap, update, ◌||◌, ◌==◌,
  if◌then◌else◌,
}
use open_vbus.Vcap.{Recorder, close_recorder}
use open_vbus.Scheduler.{SimTime, snapshot_until, call_all}
use open_vbus.Scheduler.Insertion.{insertion_queue}
use open_vbus.Bus.{Job}
use open_vbus.Daemon.Replies.{Reply, render}
use open_vbus.Daemon.Replies
use open_vbus.Daemon.State.{Handle, BusWrap, World, Os, run_job}
use open_vbus.Daemon.Commands.{Command, split, parse}
use open_vbus.Daemon.Commands
use open_vbus.Daemon.Handler.{Outcome, answer, answered, terminated}
use open_vbus.Daemon.Handler
use open_vbus.Daemon.Sync

-- the branches of `handle_cmd`
unfoldable pub execute : Os → Handle → Command → World → Outcome
execute os h Commands.empty_line w = answer w Replies.err_empty
execute os h Commands.unknown w = answer w Replies.err_cmd
execute os h Commands.list w = Handler.list w
execute os h Commands.quit w = answer (record w { shutdown = true }) Replies.bye
execute os h (Commands.create name type number) w = Handler.create name type number w
execute os h (Commands.delete name) w = Handler.delete name w
execute os h (Commands.stop_rec name) w = Handler.record_off name w
execute os h (Commands.stats_of name) w = Handler.stats_of name w
execute os h (Commands.stop_capturing name) w = Handler.stop_capturing name w
execute os h (Commands.stop_forward name) w = Handler.stop_forward name w
execute os h (Commands.subscribe name) w = Handler.subscribe h name w
execute os h (Commands.record_on name file) w = Handler.record_on os name file w
execute os h (Commands.record_off name) w = Handler.record_off name w
execute os h (Commands.send_eth name hex) w = Handler.send_eth os name hex w
execute os h (Commands.send_can name id hex) w = Handler.send_can os name id hex w
execute os h (Commands.send_canfd name id hex) w = Handler.send_canfd os name id hex w
execute os h (Commands.replay name file mode) w = Handler.replay os name file mode w
execute os h (Commands.capture_udp name host port) w = Handler.capture_udp os name host port w
execute os h (Commands.capture_tcp name host port target q) w =
    Handler.capture_tcp os name host port target q w
execute os h (Commands.forward_udp name host port) w = Handler.forward_udp os name host port w
execute os h (Commands.replay_udp file host port mode) w =
    Handler.replay_udp os file host port mode w
execute os h (Commands.replay_sync mode rest) w = Sync.replay_sync os mode rest w

-- `handle_cmd`
unfoldable pub handle_cmd : Os → Handle → Text → World → Outcome
handle_cmd os h line w = execute os h (parse (split line)) w

-- the loop that pops line ends off the back
unfoldable pub trim : Text → Text
trim [] = []
trim (c ∷ cs) = elim (trim cs) [
  | [] ↦ if c == 10 || c == 13 then [] else c ∷ []
  | d ∷ ds ↦ c ∷ d ∷ ds
]

-- one message of a client: the new state, the response that is written, and whether the thread
-- leaves the pipe to its subscriber
unfoldable pub respond : Outcome → Option (World × Text × Bool)
respond terminated = none
respond (answered w r stay) = some (w, render r ++ 10 ∷ [], stay)

unfoldable pub serve : Os → Handle → Text → World → Option (World × Text × Bool)
serve os h message w = respond (handle_cmd os h (trim message) w)

-- `g_sched.run_until(g_clk.Now())`: the due items leave the queue first, then they are called.
unfoldable pub tick : Os → SimTime → World → World
tick os now w =
    let (due, rest) = snapshot_until (insertion_queue Job) now w.sched in
    call_all (run_job os) due (record w { sched = rest })

close_recorders : List (Text × BusWrap) → Heap Recorder → Heap Recorder
close_recorders [] h = h
close_recorders ((n, b) ∷ bs) h = elim b.rec [
  | none ↦ close_recorders bs h
  | some r ↦ close_recorders bs (update h r (close_recorder (h r)))
]

-- the end of `main`
unfoldable pub shut_down : World → World
unfolding close_recorders
shut_down w = record w { recorders = close_recorders w.buses w.recorders }
