-- ===== src/Gui/Model/Buses/Preserved.antt =====
-- Subscriptions keep the invariant, and what `deleteBus` does before it takes the bus off the list.
use open_vbus.Base.{ℕ, ◌≢◌, refl, sym, ◌∙◌, Bool, true, false, List, ◌∷◌, ◌++◌, codes, if_cases}
use open_vbus.Gui.Client.Commands.{DaemonClient}
use open_vbus.Gui.Model.{quoted, Bus, Model, Surroundings, ask}
use open_vbus.Gui.Model.Capture.Preserved.{detach_iface-Stays}
use open_vbus.Gui.Model.Records.{stop_record}
use open_vbus.Gui.Model.Records.Preserved.{stop_record-Keeps}
use open_vbus.Gui.Model.Invariant.{
  IsFit, Holds, Stays, erase_id-Keyed, Keyed-mono, add_log-Holds, ask-Holds,
}
use open_vbus.Gui.Model.Buses.{
  unsubscribe_frames, subscribed, subscribe_frames, told_daemon, stopped, retired, tell,
}

module _ {S : Type 0} (gui : Surroundings S) (bs : List Bus) (sel : ℕ) (P Q : ℕ → Type 0) where
  pub unsubscribe_frames-Holds :
      (id : ℕ) (m : Model S)
      → Holds bs sel P Q m
      → Holds bs sel (λ i. P i × (i ≢ id)) Q (unsubscribe_frames gui id m)
  unfolding unsubscribe_frames
  unsubscribe_frames-Holds id m h = record {
    log = h.log;
    kept = h.kept;
    selected = h.selected;
    subs = erase_id-Keyed P id m.subs h.subs;
    ifaces = h.ifaces;
  }

  subscribed-Holds :
      (b : Bus) (r : (Bool × DaemonClient) × S) (m : Model S)
      → P b.id
      → Holds bs sel P Q m
      → Holds bs sel P Q (subscribed gui b r m)
  unfolding subscribed
  subscribed-Holds b ((true, c), s) m p h =
      let g =
        unsubscribe_frames-Holds b.id (record m { world = s })
          (record {
            log = h.log;
            kept = h.kept;
            selected = h.selected;
            subs = h.subs;
            ifaces = h.ifaces;
          }) in
      add_log-Holds gui bs sel P Q _
        (record (unsubscribe_frames gui b.id (record m { world = s })) {
          subs = (b.id, c) ∷ (unsubscribe_frames gui b.id (record m { world = s })).subs;
        })
        (record {
          log = g.log;
          kept = g.kept;
          selected = g.selected;
          subs = (p, Keyed-mono _ P _ (λ i e. e.0) g.subs);
          ifaces = g.ifaces;
        })
  subscribed-Holds b ((false, c), s) m p h =
      add_log-Holds gui bs sel P Q _ (record m { world = s })
        (record {
          log = h.log;
          kept = h.kept;
          selected = h.selected;
          subs = h.subs;
          ifaces = h.ifaces;
        })

  pub subscribe_frames-Holds :
      (b : Bus) (m : Model S)
      → P b.id
      → Holds bs sel P Q m
      → Holds bs sel P Q (subscribe_frames gui b m)
  unfolding subscribe_frames
  subscribe_frames-Holds b m p h = subscribed-Holds b _ m p h

  pub tell-Holds : (b : Bus) (m : Model S) → Holds bs sel P Q m → Holds bs sel P Q (tell gui (b, m))
  unfolding tell told_daemon
  tell-Holds b m h =
      if_cases (Holds bs sel P Q) m.daemon_connected
        (told_daemon gui b (ask gui (codes "delete " ++ b.name) m)) _
        (λ _. search (add_log-Holds, ask-Holds))
        (λ _. add_log-Holds gui bs sel P Q (codes "[delete] bus " ++ quoted b.name) m h)

  stopped-Stays :
      (b : Bus) (m : Model S)
      → P b.id
      → Q b.id
      → IsFit b
      → Holds bs sel P Q m
      → Stays bs sel P Q b (stopped gui b m)
  unfolding stopped
  stopped-Stays b m p q f h =
      if_cases (Stays bs sel P Q b) b.recording (stop_record gui b m) (b, m)
        (λ _. stop_record-Keeps gui bs sel P Q b m p q f h)
        (λ _. record { same = refl; fit = f; held = h })

  pub retired-Stays :
      (b : Bus) (m : Model S)
      → P b.id
      → Q b.id
      → IsFit b
      → Holds bs sel P Q m
      → Stays bs sel (λ i. P i × (i ≢ b.id)) (λ i. Q i × (i ≢ b.id)) b (retired gui b m)
  unfolding retired
  retired-Stays b m p q f h =
      let s = stopped-Stays b m p q f h in
      let u = unsubscribe_frames-Holds b.id (stopped gui b m).1 s.held in
      let d =
        detach_iface-Stays gui bs sel (λ i. P i × (i ≢ b.id)) Q (stopped gui b m).0
          (unsubscribe_frames gui b.id (stopped gui b m).1) s.fit u in
      record {
        same = d.same ∙ s.same;
        fit = d.fit;
        held = record {
          log = d.held.log;
          kept = d.held.kept;
          selected = d.held.selected;
          subs = d.held.subs;
          ifaces =
              Keyed-mono _ (λ i. Q i × (i ≢ b.id)) _ (λ i e. (e.0, λ eq. e.1 (eq ∙ sym s.same)))
                d.held.ifaces;
        };
      }
