-- ===== src/Gui/Model/Tick/Preserved.antt =====
-- `tick` keeps the invariant.
use open_vbus.Base.{
  ℕ, suc, ◌+◌, ◌-◌, ◌%◌, ◌^◌, ◌≤◌, ◌≡◌, ◌⊎◌, ◌==◌, refl, sym, subst, ap, ◌∙◌, Bool, true, false,
  List, [], ◌∷◌, codes, All, length, take, length-take, if_cases, arith, ltb,
}
use open_vbus.Gui.Filters.{passes_filters}
use open_vbus.Gui.Client.{RawFrame}
use open_vbus.Gui.Model.{Bus, Packet, Model, Surroundings, add_log}
use open_vbus.Gui.Model.Invariant.{
  Known, ids_of, IsFit, IsSound, Stays, Keeps, Keyed, for_buses-IsSound, add_log-IsSound,
}
use open_vbus.Gui.Model.Buses.{sync_buses}
use open_vbus.Gui.Model.Buses.Creation.{sync_buses-IsSound}
use open_vbus.Gui.Model.Tick.{
  is_connected, packet_of, pushed, offer, receive_frame, receive_frames, enqueue, mock_packet,
  mock_bus, noticed, pinged, ping, drained, simulated, tick,
}

length-pushed :
    (p : Packet) (ring : List Packet) → length ring ≤ 4096 → length (pushed p ring) ≤ 4096
unfolding pushed
length-pushed p ring h =
    if_cases (λ r. length r ≤ 4096) (ltb 4096 (suc (length ring)))
      (take (suc (length ring) - 1) (p ∷ ring)) (p ∷ ring)
      (λ e. omega (arith, length-take (suc (length ring) - 1) (p ∷ ring))) (λ e. ground arith)

-- A packet leaves the bus with its number and within its bounds.
abbrev Same : Bus → Bus → Type 0
Same b c = (c.id ≡ b.id) × IsFit c

offer-Same : (p : Packet) (b : Bus) → IsFit b → Same b (offer p b)
unfolding offer
offer-Same p b f =
    if_cases (Same b) (passes_filters b.filters p.vlan p.size) _ _
      (λ _. (refl, record { ring = length-pushed p b.ring f.ring; path = f.path })) (λ _. (refl, f))

abbrev Alike : List Bus → List Bus → Type 0
Alike bs cs = (ids_of cs ≡ ids_of bs) × All IsFit cs

receive_frame-Alike :
    (id : ℕ) (f : RawFrame) (bs : List Bus) → All IsFit bs → Alike bs (receive_frame id f bs)
unfolding receive_frame
receive_frame-Alike id f [] h = (refl, tt)
receive_frame-Alike id f (b ∷ bs) (h, hs) =
    let (same, fits) = offer-Same (packet_of f) b h in
    let (ids, all) = receive_frame-Alike id f bs hs in
    if_cases (Alike (b ∷ bs)) (b.id == id) _ _
      (λ _.
        if_cases (Alike (b ∷ bs)) b.enabled (offer (packet_of f) b ∷ bs) (b ∷ bs)
          (λ _. (ap (λ i. i ∷ ids_of bs) same, (fits, hs))) (λ _. (refl, (h, hs))))
      (λ _. (ap (◌∷◌ b.id) ids, (h, all)))

receive_frames-Alike :
    (fs : List (ℕ × RawFrame)) (bs : List Bus) → All IsFit bs → Alike bs (receive_frames fs bs)
unfolding receive_frames
receive_frames-Alike [] bs h = (refl, h)
receive_frames-Alike ((id, f) ∷ fs) bs h =
    let (same, fits) = receive_frame-Alike id f bs h in
    let (more, all) = receive_frames-Alike fs (receive_frame id f bs) fits in (more ∙ same, all)

module _ {S : Type 0} (gui : Surroundings S) where
  mock_bus-Keeps : Keeps (mock_bus gui)
  unfolding mock_bus
  mock_bus-Keeps bs sel P Q b m p q f h =
      let pkt = (mock_packet gui m.tick_ns m.world).0 in
      let (same, fit) = offer-Same pkt b f in
      if_cases (Stays bs sel P Q b) _ _ _ (λ _. record { same = refl; fit = f; held = h })
        (λ _. record {
          same = same;
          fit = fit;
          held = record {
            log = h.log;
            kept = h.kept;
            selected = h.selected;
            subs = h.subs;
            ifaces = h.ifaces;
          };
        })

  simulated-IsSound : (m : Model S) → IsSound m → IsSound (simulated gui m)
  unfolding simulated
  simulated-IsSound m s =
      if_cases IsSound m.daemon_connected _ _ (λ _. s)
        (λ _. for_buses-IsSound (mock_bus gui) mock_bus-Keeps m s)

  drained-IsSound : (m : Model S) → IsSound m → IsSound (drained gui m)
  unfolding drained
  drained-IsSound m s =
      let (same, fits) = receive_frames-Alike m.frame_queue m.buses s.fits in
      record {
        log = s.log;
        fits = fits;
        subs = subst (λ ids. Keyed (λ i. Known i ids) m.subs) (sym same) s.subs;
        ifaces = subst (λ ids. Keyed (λ i. Known i ids) m.ifaces) (sym same) s.ifaces;
        selected =
            subst (λ ids. (m.selected_bus ≡ 0) ⊎ Known m.selected_bus ids) (sym same) s.selected;
      }

  noticed-IsSound : (was now : Bool) (m : Model S) → IsSound m → IsSound (noticed gui was now m)
  unfolding noticed
  noticed-IsSound false true m s =
      let c = add_log-IsSound gui (codes "[daemon] connected") m s in
      if_cases IsSound (add_log gui (codes "[daemon] connected") m).needs_daemon_sync
        (sync_buses gui (add_log gui (codes "[daemon] connected") m))
        (add_log gui (codes "[daemon] connected") m)
        (λ _. sync_buses-IsSound gui (add_log gui (codes "[daemon] connected") m) c) (λ _. c)
  noticed-IsSound true false m s = add_log-IsSound gui (codes "[daemon] disconnected") m s
  noticed-IsSound false false m s = s
  noticed-IsSound true true m s = s

  ping-IsSound : (m : Model S) → IsSound m → IsSound (ping gui m)
  unfolding ping pinged
  ping-IsSound m s =
      let r = is_connected gui.pipes m.world in
      if_cases IsSound (ltb 2_000_000_000 ((m.tick_ns + 2 ^ 64 - m.last_ping) % 2 ^ 64))
        (pinged gui r m) m
        (λ _.
          noticed-IsSound m.daemon_connected r.0
            (record m { last_ping = m.tick_ns; daemon_connected = r.0; world = r.1 }) s)
        (λ _. s)

  pub tick-IsSound : (dt : ℕ) (m : Model S) → IsSound m → IsSound (tick gui dt m)
  unfolding tick
  tick-IsSound dt m s =
      let m' = record m { tick_ns = (m.tick_ns + dt) % 2 ^ 64 } in
      simulated-IsSound (drained gui (ping gui m'))
        (drained-IsSound (ping gui m') (ping-IsSound m' s))

  pub enqueue-IsSound : (id : ℕ) (f : RawFrame) (m : Model S) → IsSound m → IsSound (enqueue id f m)
  unfolding enqueue
  enqueue-IsSound id f m s = s
