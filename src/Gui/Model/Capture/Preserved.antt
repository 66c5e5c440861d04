-- ===== src/Gui/Model/Capture/Preserved.antt =====
-- Interfaces keep the invariant.
use open_vbus.Base.{
  ◌==◌, ℕ, ◌≢◌, ◌&&◌, refl, sym, subst, ◌∙◌, true, not, Option, none, some, List, [], ◌∷◌, ◌++◌,
  Text, codes, if_cases, text_eq, starts_with,
}
use open_vbus.Gui.Model.{quoted, Bus, InterfaceDesc, Mock, Model, Surroundings, ask}
use open_vbus.Gui.Model.Invariant.{
  IsFit, Holds, Stays, Keeps, Keyed, erase_id-Keyed, Keyed-mono, ifaces-Holds, add_log-Holds,
  ask-Holds,
}
use open_vbus.Gui.Model.Capture.{
  make, start_mock, stop_iface, erase_id, released, release, detach_iface, attach_started,
  attach_mock, judged, captured_udp, captured_tcp, attach_daemon, attach_as, attach_iface,
}

stop_iface-Keyed :
    (P : ℕ → Type 0) (id : ℕ) (ks : List (ℕ × Mock)) → Keyed P ks → Keyed P (stop_iface id ks)
unfolding stop_iface
stop_iface-Keyed P id [] h = tt
stop_iface-Keyed P id ((i, k) ∷ ks) (h, hs) =
    if_cases (Keyed P) (i == id) _ _ (λ _. (h, stop_iface-Keyed P id ks hs))
      (λ _. (h, stop_iface-Keyed P id ks hs))

module _ {S : Type 0} (gui : Surroundings S) (bs : List Bus) (sel : ℕ) (P Q : ℕ → Type 0) where
  release-Holds :
      (d : Option InterfaceDesc) (b : Bus) (m : Model S)
      → Holds bs sel P Q m
      → Holds bs sel P Q (release gui d b m)
  unfolding release released
  release-Holds none b m h = h
  release-Holds (some d) b m h =
      if_cases (Holds bs sel P Q) (not (text_eq d.driver (codes "mock")) && m.daemon_connected)
        (released gui b (ask gui (codes "stop-capture " ++ b.name) m)) _
        (λ _. search (add_log-Holds, ask-Holds))
        (λ _.
          add_log-Holds gui bs sel P Q
            (codes "[iface] detached " ++ (quoted d.driver ++ (codes " from " ++ quoted b.name))) m
            h)

module _ {S : Type 0} (gui : Surroundings S) (bs : List Bus) (sel : ℕ) (P Q : ℕ → Type 0) where
  -- The number of a bus that lets its interface go is no key any more.
  pub detach_iface-Stays :
      (b : Bus) (m : Model S)
      → IsFit b
      → Holds bs sel P Q m
      → Stays bs sel P (λ i. Q i × (i ≢ b.id)) b (detach_iface gui b m)
  unfolding detach_iface
  detach_iface-Stays b m f h = record {
    same = refl;
    fit = record { ring = f.ring; path = f.path };
    held =
        release-Holds gui bs sel P (λ i. Q i × (i ≢ b.id)) b.iface b _
          (ifaces-Holds bs sel P Q (λ i. Q i × (i ≢ b.id)) _ m
            (erase_id-Keyed Q b.id (stop_iface b.id m.ifaces)
              (stop_iface-Keyed Q b.id m.ifaces h.ifaces))
            h);
  }

  judged-Stays :
      (b : Bus) (resp : Text) (m : Model S)
      → IsFit b
      → Holds bs sel P Q m
      → Stays bs sel P Q b (judged gui b resp m)
  unfolding judged
  judged-Stays b resp m f h =
      if_cases (Stays bs sel P Q b) (starts_with (codes "ERR") resp) _ _
        (λ _. record {
          same = refl;
          fit = record { ring = f.ring; path = f.path };
          held = search (add_log-Holds);
        })
        (λ _. record { same = refl; fit = f; held = h })

  attach_daemon-Stays :
      (d : InterfaceDesc) (b : Bus) (m : Model S)
      → IsFit b
      → Holds bs sel P Q m
      → Stays bs sel P Q b (attach_daemon gui d b m)
  unfolding attach_daemon captured_udp captured_tcp
  attach_daemon-Stays d b m f h =
      if_cases (Stays bs sel P Q b) (text_eq d.driver (codes "udp")) _ _
        (λ _. search (judged-Stays, add_log-Holds, ask-Holds))
        (λ _.
          if_cases (Stays bs sel P Q b) (text_eq d.driver (codes "tcp")) _ _
            (λ _. search (judged-Stays, add_log-Holds, ask-Holds)) (λ _. judged-Stays b [] m f h))

  attach_mock-Stays :
      (b : Bus) (k : Option Mock) (m : Model S)
      → Q b.id
      → IsFit b
      → Holds bs sel P Q m
      → Stays bs sel P Q b (attach_mock gui b k m)
  unfolding attach_mock attach_started start_mock
  attach_mock-Stays b none m q f h = record {
    same = refl;
    fit = record { ring = f.ring; path = f.path };
    held = h;
  }
  attach_mock-Stays b (some k) m q f h = record {
    same = refl;
    fit = f;
    held =
        add_log-Holds gui bs sel P Q _
          (record m { ifaces = (b.id, record { running = true }) ∷ erase_id b.id m.ifaces })
          (ifaces-Holds bs sel P Q Q ((b.id, record { running = true }) ∷ erase_id b.id m.ifaces) m
            (
              q,
              Keyed-mono (λ i. Q i × (i ≢ b.id)) Q (erase_id b.id m.ifaces) (λ i e. e.0)
                  (erase_id-Keyed Q b.id m.ifaces h.ifaces),
            )
            h);
  }

  attach_as-Stays :
      (d : InterfaceDesc) (b : Bus) (m : Model S)
      → Q b.id
      → IsFit b
      → Holds bs sel P Q m
      → Stays bs sel P Q b (attach_as gui d b m)
  unfolding attach_as
  attach_as-Stays d b m q f h =
      if_cases (Stays bs sel P Q b) (text_eq d.driver (codes "mock")) _ _
        (λ _. attach_mock-Stays b (make d) m q f h)
        (λ _.
          if_cases (Stays bs sel P Q b) m.daemon_connected _ _ (λ _. attach_daemon-Stays d b m f h)
            (λ _. record {
              same = refl;
              fit = record { ring = f.ring; path = f.path };
              held = search (add_log-Holds);
            }))

module _ {S : Type 0} (gui : Surroundings S) where
  pub detach_iface-Keeps : Keeps (detach_iface gui)
  detach_iface-Keeps bs sel P Q b m p q f h =
      let s = detach_iface-Stays gui bs sel P Q b m f h in
      record {
        same = s.same;
        fit = s.fit;
        held = record {
          log = s.held.log;
          kept = s.held.kept;
          selected = s.held.selected;
          subs = s.held.subs;
          ifaces = Keyed-mono _ Q _ (λ i e. e.0) s.held.ifaces;
        };
      }

  pub attach_iface-Keeps : (d : InterfaceDesc) → Keeps (attach_iface gui d)
  unfolding attach_iface
  attach_iface-Keeps d bs sel P Q b m p q f h =
      let s = detach_iface-Keeps bs sel P Q b m p q f h in
      let b' = (detach_iface gui b m).0 in
      let t =
        attach_as-Stays gui bs sel P Q d (record b' { iface = some d }) (detach_iface gui b m).1
          (subst Q (sym s.same) q) (record { ring = s.fit.ring; path = s.fit.path }) s.held in
      record { same = t.same ∙ s.same; fit = t.fit; held = t.held }
