-- ===== src/Gui/Model/Records.antt =====
-- `startRecord`, `stopRecord`, their variants for all buses, and `startForward` and `stopForward`.
pub mod Preserved
use open_vbus.Base.{
  Bool, false, not, ◌||◌, List, [], ◌∷◌, ◌++◌, Text, codes, to_string, text_eq, if◌then◌else◌,
}
use open_vbus.Gui.Model.{
  Bus, Model, Surroundings, add_log, ask, is_ok, copied, for_buses, arrow, quoted,
}

-- the lines of `startRecord` and `startRecordAll`, of `stopRecord` and `stopRecordAll`, and of
-- `stopForward`
abbrev pub record_command : Text → Text → Text
record_command name path = codes "record " ++ (name ++ (codes " on " ++ path))

abbrev pub stop_record_command : Text → Text
stop_record_command name = codes "stoprec " ++ name

abbrev pub stop_forward_command : Text → Text
stop_forward_command name = codes "stop-forward " ++ name

module _ {S : Type 0} (gui : Surroundings S) where
  start_record_now : Bus → Text × Model S → Bus × Model S
  unfolding is_ok add_log
  start_record_now b (resp, m) = (
    record b { recording = is_ok resp },
    add_log gui (codes "[rec] start " ++ (quoted b.name ++ (arrow ++ resp))) m,
  )

  unfoldable pub start_record : Bus → Model S → Bus × Model S
  unfolding start_record_now add_log ask text_eq
  start_record b m =
      if not m.daemon_connected
      then (b, add_log gui (codes "[rec] daemon not connected") m)
      else if text_eq b.record_path []
      then (b, add_log gui (codes "[rec] no output path set") m)
      else start_record_now b (ask gui (record_command b.name b.record_path) m)

  stop_record_now : Text → Text → Bus → Text × Model S → Bus × Model S
  unfolding add_log
  stop_record_now label to b (resp, m) =
      (record b { recording = false }, add_log gui (label ++ (quoted b.name ++ (to ++ resp))) m)

  unfoldable pub stop_record : Bus → Model S → Bus × Model S
  unfolding stop_record_now ask
  stop_record b m =
      if m.daemon_connected
      then stop_record_now (codes "[rec] stop ") arrow b (ask gui (stop_record_command b.name) m)
      else (b, m)

  -- the path of one bus: prefix_busname.vbuscap
  unfoldable pub path_for : Text → Bus → Text
  path_for prefix b = prefix ++ (codes "_" ++ (b.name ++ codes ".vbuscap"))

  recorded_all : Bus → Text × Model S → Bus × Model S
  unfolding is_ok add_log
  recorded_all b (resp, m) = (
    record b { recording = is_ok resp },
    add_log gui (codes "[rec-all] " ++ (quoted b.name ++ (codes " -> " ++ resp))) m,
  )

  record_in_all : Bus → Model S → Bus × Model S
  unfolding path_for copied recorded_all ask
  record_in_all b m =
      let path = path_for m.record_all_prefix b in
      recorded_all (record b { record_path = copied 255 path })
        (ask gui (record_command b.name path) m)

  unfoldable pub any_recording : List Bus → Bool
  any_recording [] = false
  any_recording (b ∷ bs) = b.recording || any_recording bs

  unfoldable pub start_record_all : Model S → Model S
  unfolding record_in_all any_recording for_buses add_log
  start_record_all m =
      let m' = for_buses record_in_all m in
      if m.daemon_connected
      then record m' { global_recording = any_recording m'.buses }
      else add_log gui (codes "[rec-all] daemon not connected") m

  stop_in_all : Bus → Model S → Bus × Model S
  unfolding stop_record_now ask
  stop_in_all b m =
      if b.recording
      then stop_record_now (codes "[rec-all] stop ") (codes " -> ") b
          (ask gui (stop_record_command b.name) m)
      else (b, m)

  unfoldable pub stop_record_all : Model S → Model S
  unfolding stop_in_all for_buses
  stop_record_all m = record (for_buses stop_in_all m) { global_recording = false }

  forwarded : Bus → Text × Model S → Bus × Model S
  unfolding is_ok add_log to_string
  forwarded b (resp, m) = (
    record b { forwarding = is_ok resp },
    add_log gui
        (codes "[fwd] start "
          ++ (quoted b.name
              ++ (arrow
                  ++ (b.forward_host ++ (58 ∷ (to_string b.forward_port ++ (arrow ++ resp)))))))
        m,
  )

  unfoldable pub forward_command : Bus → Text
  unfolding to_string
  forward_command b =
      codes "forward-udp " ++ (b.name ++ (32 ∷ (b.forward_host ++ (32 ∷ to_string b.forward_port))))

  unfoldable pub start_forward : Bus → Model S → Bus × Model S
  unfolding forwarded forward_command add_log ask
  start_forward b m =
      if m.daemon_connected
      then forwarded b (ask gui (forward_command b) m)
      else (b, add_log gui (codes "[fwd] daemon not connected") m)

  stopped_forward : Bus → Text × Model S → Bus × Model S
  unfolding add_log
  stopped_forward b (resp, m) = (
    record b { forwarding = false },
    add_log gui (codes "[fwd] stop " ++ (quoted b.name ++ (arrow ++ resp))) m,
  )

  unfoldable pub stop_forward : Bus → Model S → Bus × Model S
  unfolding stopped_forward ask
  stop_forward b m =
      if m.daemon_connected
      then stopped_forward b (ask gui (stop_forward_command b.name) m)
      else (b, m)
