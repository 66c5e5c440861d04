-- ===== src/Gui/Model/Capture.antt =====
-- `attachIface` and `detachIface`, with the simulated interface of backends/iface_mock.cpp.
pub mod Preserved
use open_vbus.Base.{
  ℕ, Bool, true, false, not, ◌&&◌, Option, none, some, List, [], ◌∷◌, ◌++◌, Text, codes, to_string,
  text_eq, starts_with, ◌==◌, if◌then◌else◌,
}
use open_vbus.Gui.Model.{Bus, InterfaceDesc, Mock, Model, Surroundings, add_log, ask, arrow, quoted}

-- `iface::make`
unfoldable pub make : InterfaceDesc → Option Mock
unfolding text_eq
make d = if text_eq d.driver (codes "mock") then some (record { running = false }) else none

-- `Mock::start`
unfoldable pub start_mock : Mock → Bool × Mock
start_mock k = (true, record k { running = true })

-- `Mock::stop`
unfoldable pub stop_mock : Mock → Mock
stop_mock k = record k { running = false }

-- `mit->second->stop();` on what the map has at a number
unfoldable pub stop_iface : ℕ → List (ℕ × Mock) → List (ℕ × Mock)
unfolding stop_mock
stop_iface id [] = []
stop_iface id ((i, k) ∷ rest) =
    let others = stop_iface id rest in
    if i == id then (i, stop_mock k) ∷ others else (i, k) ∷ others

unfoldable pub erase_id : {A : Type 0} → ℕ → List (ℕ × A) → List (ℕ × A)
erase_id id [] = []
erase_id id ((i, a) ∷ rest) =
    let others = erase_id id rest in if i == id then others else (i, a) ∷ others

abbrev pub stop_capture_command : Text → Text
stop_capture_command name = codes "stop-capture " ++ name

module _ {S : Type 0} (gui : Surroundings S) where
  released : Bus → Text × Model S → Model S
  unfolding add_log
  released b (resp, m) =
      add_log gui (codes "[iface] detached capture on " ++ (quoted b.name ++ (arrow ++ resp))) m

  release : Option InterfaceDesc → Bus → Model S → Model S
  unfolding released add_log ask text_eq
  release none b m = m
  release (some d) b m =
      if not (text_eq d.driver (codes "mock")) && m.daemon_connected
      then released b (ask gui (stop_capture_command b.name) m)
      else add_log gui
          (codes "[iface] detached " ++ (quoted d.driver ++ (codes " from " ++ quoted b.name))) m

  unfoldable pub detach_iface : Bus → Model S → Bus × Model S
  unfolding release erase_id stop_iface
  detach_iface b m = (
    record b { iface = none },
    release b.iface b (record m { ifaces = erase_id b.id (stop_iface b.id m.ifaces) }),
  )

  -- the backend that `make` gives is started, and kept if it starts
  attach_started : Bus → Bool × Mock → Model S → Bus × Model S
  unfolding add_log erase_id
  attach_started b (true, k) m = (
    b,
    add_log gui (codes "[iface] mock attached to " ++ quoted b.name)
        (record m { ifaces = (b.id, k) ∷ erase_id b.id m.ifaces }),
  )
  attach_started b (false, k) m = (record b { iface = none }, m)

  attach_mock : Bus → Option Mock → Model S → Bus × Model S
  unfolding attach_started start_mock
  attach_mock b none m = (record b { iface = none }, m)
  attach_mock b (some k) m = attach_started b (start_mock k) m

  unfoldable pub address : Text → ℕ → Text
  unfolding to_string
  address host port = host ++ (32 ∷ to_string port)

  shown_address : Text → ℕ → Text
  unfolding to_string
  shown_address host port = host ++ (58 ∷ to_string port)

  unfoldable pub udp_command : Bus → Text
  unfolding address
  udp_command b = codes "capture-udp " ++ (b.name ++ (32 ∷ address b.bind_host b.bind_port))

  unfoldable pub tcp_command : Bus → Text
  unfolding address
  tcp_command b =
      codes "capture-tcp "
      ++ (b.name
          ++ (32 ∷ (address b.bind_host b.bind_port ++ (32 ∷ address b.target_host b.target_port))))

  -- `b.iface` is reset where the response begins with `ERR`
  judged : Bus → Text → Model S → Bus × Model S
  unfolding add_log starts_with
  judged b resp m =
      if starts_with (codes "ERR") resp
      then (record b { iface = none }, add_log gui (codes "[iface] FAILED: " ++ resp) m)
      else (b, m)

  captured_udp : Bus → Text × Model S → Bus × Model S
  unfolding judged add_log shown_address
  captured_udp b (resp, m) = judged b resp (
      add_log gui
        (codes "[capture] UDP "
          ++ (shown_address b.bind_host b.bind_port
              ++ (codes " on " ++ (quoted b.name ++ (arrow ++ resp)))))
        m)

  captured_tcp : Bus → Text × Model S → Bus × Model S
  unfolding judged add_log shown_address
  captured_tcp b (resp, m) = judged b resp (
      add_log gui
        (codes "[capture] TCP proxy "
          ++ (shown_address b.bind_host b.bind_port
              ++ (arrow
                  ++ (shown_address b.target_host b.target_port
                      ++ (codes " on " ++ (quoted b.name ++ (arrow ++ resp)))))))
        m)

  attach_daemon : InterfaceDesc → Bus → Model S → Bus × Model S
  unfolding captured_udp captured_tcp udp_command tcp_command judged ask text_eq
  attach_daemon d b m =
      if text_eq d.driver (codes "udp")
      then captured_udp b (ask gui (udp_command b) m)
      else if text_eq d.driver (codes "tcp")
      then captured_tcp b (ask gui (tcp_command b) m)
      else judged b [] m

  attach_as : InterfaceDesc → Bus → Model S → Bus × Model S
  unfolding attach_mock attach_daemon make add_log text_eq
  attach_as d b m =
      if text_eq d.driver (codes "mock")
      then attach_mock b (make d) m
      else if m.daemon_connected
      then attach_daemon d b m
      else (
        record b { iface = none },
        add_log gui
            (codes "[iface] daemon not connected "
              ++ (dash ++ (codes " cannot attach " ++ d.driver)))
            m,
      )
    where
      -- UTF-8
      dash : Text
      dash = 226 ∷ 128 ∷ 147 ∷ []

  unfoldable pub attach_iface : InterfaceDesc → Bus → Model S → Bus × Model S
  unfolding detach_iface attach_as
  attach_iface d b m =
      let (b', m') = detach_iface b m in attach_as d (record b' { iface = some d }) m'
