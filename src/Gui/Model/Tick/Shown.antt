-- ===== src/Gui/Model/Tick/Shown.antt =====
-- What a tick shows of the frames that have come.
use open_vbus.Base.{
  ◌-◌, ℕ, ◌+◌, ◌%◌, ◌^◌, ◌≤◌, ◌≡◌, refl, ap, sym, ◌∙◌, Bool, true, false, Bool-cases, inl, inr,
  Option, none, some, List, [], ◌∷◌, ◌==◌, ==_iff, if_cases, le→not_ltb, if◌then◌else◌, arith,
}
use open_vbus.Gui.Filters.{passes_filters}
use open_vbus.Gui.Client.{RawFrame}
use open_vbus.Gui.Model.{Bus, Packet, Model, Surroundings, find_bus}
use open_vbus.Gui.Model.Tick.{
  packet_of, pushed, offer, receive_frame, receive_frames, ping, drained, simulated, tick,
}

-- A bus with a frame that it is sent, if it is enabled.
abbrev pub offered : RawFrame → Bus → Bus
offered f b = if b.enabled then offer (packet_of f) b else b

abbrev pub shown_one : RawFrame → Option Bus → Option Bus
shown_one f none = none
shown_one f (some b) = some (offered f b)

-- The bus with all the frames for its number, in their order.
abbrev pub shown : ℕ → List (ℕ × RawFrame) → Option Bus → Option Bus
shown id [] o = o
shown id ((i, f) ∷ fs) o = shown id fs (if i == id then shown_one f o else o)

id-offer : (p : Packet) (b : Bus) → (offer p b).id ≡ b.id
unfolding offer
id-offer p b =
    if_cases (λ c. c.id ≡ b.id) (passes_filters b.filters p.vlan p.size)
      (record b { ring = pushed p b.ring }) b (λ _. refl) (λ _. refl)

id-offered : (f : RawFrame) (b : Bus) → (offered f b).id ≡ b.id
id-offered f b =
    if_cases (λ c. c.id ≡ b.id) b.enabled (offer (packet_of f) b) b (λ _. id-offer (packet_of f) b)
      (λ _. refl)

if-cons :
    (t : Bool) (b c : Bus) (bs : List Bus)
    → (if t then b ∷ bs else c ∷ bs) ≡ (if t then b else c) ∷ bs
if-cons true b c bs = refl
if-cons false b c bs = refl

found_here :
    (id : ℕ) (b : Bus) (bs : List Bus) → (b.id == id) ≡ true → find_bus id (b ∷ bs) ≡ some b
unfolding find_bus
found_here id b bs e = rw e refl

found_later :
    (id : ℕ) (b : Bus) (bs : List Bus)
    → (b.id == id) ≡ false
    → find_bus id (b ∷ bs) ≡ find_bus id bs
unfolding find_bus
found_later id b bs e = rw e refl

received_here :
    (i : ℕ) (f : RawFrame) (b : Bus) (bs : List Bus)
    → (b.id == i) ≡ true
    → receive_frame i f (b ∷ bs) ≡ offered f b ∷ bs
unfolding receive_frame
received_here i f b bs e = rw e (if-cons b.enabled (offer (packet_of f) b) b bs)

received_later :
    (i : ℕ) (f : RawFrame) (b : Bus) (bs : List Bus)
    → (b.id == i) ≡ false
    → receive_frame i f (b ∷ bs) ≡ b ∷ receive_frame i f bs
unfolding receive_frame
received_later i f b bs e = rw e refl

-- The bus that is looked for, whether or not it is sent the frame.
abbrev sent : ℕ → ℕ → RawFrame → Option Bus → Option Bus
sent id i f o = if i == id then shown_one f o else o

find_bus-receive_frame :
    (id i : ℕ) (f : RawFrame) (bs : List Bus)
    → find_bus id (receive_frame i f bs) ≡ sent id i f (find_bus id bs)
unfolding receive_frame find_bus
find_bus-receive_frame id i f [] = elim (Bool-cases (i == id)) [
  | inl e ↦ rw e refl
  | inr e ↦ rw e refl
]
find_bus-receive_frame id i f (b ∷ bs) = elim (Bool-cases (b.id == i)) [
  | inl e ↦
      let same : (i == id) ≡ (b.id == id) = ap (λ x. x == id) (sym ((==_iff b.id i).0 e)) in
      let as_before : ((offered f b).id == id) ≡ (b.id == id) =
        ap (λ x. x == id) (id-offered f b) in
      ap (find_bus id) (received_here i f b bs e) ∙ elim (Bool-cases (b.id == id)) [
        | inl d ↦
            found_here id (offered f b) bs (as_before ∙ d)
            ∙ sym (ap (sent id i f) (found_here id b bs d) ∙ taken (same ∙ d) (some b))
        | inr d ↦
            found_later id (offered f b) bs (as_before ∙ d)
            ∙ sym (ap (sent id i f) (found_later id b bs d) ∙ left (same ∙ d) (find_bus id bs))
      ]
  | inr e ↦ ap (find_bus id) (received_later i f b bs e) ∙ elim (Bool-cases (b.id == id)) [
    | inl d ↦
        found_here id b (receive_frame i f bs) d
        ∙ sym (ap (sent id i f) (found_here id b bs d) ∙ left (ground arith) (some b))
    | inr d ↦
        found_later id b (receive_frame i f bs) d
        ∙ (find_bus-receive_frame id i f bs ∙ sym (ap (sent id i f) (found_later id b bs d)))
  ]
]
  where
    taken : (i == id) ≡ true → (o : Option Bus) → sent id i f o ≡ shown_one f o
    taken h o = rw h refl

    left : (i == id) ≡ false → (o : Option Bus) → sent id i f o ≡ o
    left h o = rw h refl

find_bus-receive_frames :
    (id : ℕ) (fs : List (ℕ × RawFrame)) (bs : List Bus)
    → find_bus id (receive_frames fs bs) ≡ shown id fs (find_bus id bs)
unfolding receive_frames
find_bus-receive_frames id [] bs = refl
find_bus-receive_frames id ((i, f) ∷ fs) bs =
    find_bus-receive_frames id fs (receive_frame i f bs)
    ∙ ap (shown id fs) (find_bus-receive_frame id i f bs)

module _ {S : Type 0} (gui : Surroundings S) where
  quiet_ping :
      (m : Model S) → (m.tick_ns + 2 ^ 64 - m.last_ping) % 2 ^ 64 ≤ 2_000_000_000 → ping gui m ≡ m
  unfolding ping
  quiet_ping m h =
      rw (le→not_ltb 2_000_000_000 ((m.tick_ns + 2 ^ 64 - m.last_ping) % 2 ^ 64) h) refl

  quiet_simulation : (m : Model S) → m.daemon_connected ≡ true → simulated gui m ≡ m
  unfolding simulated
  quiet_simulation m c = rw c refl

  quiet_tick :
      (dt : ℕ) (m : Model S)
      → m.daemon_connected ≡ true
      → ((m.tick_ns + dt) % 2 ^ 64 + 2 ^ 64 - m.last_ping) % 2 ^ 64 ≤ 2_000_000_000
      → tick gui dt m ≡ drained gui (record m { tick_ns = (m.tick_ns + dt) % 2 ^ 64 })
  unfolding tick drained
  quiet_tick dt m c h =
      let m' = record m { tick_ns = (m.tick_ns + dt) % 2 ^ 64 } in
      ap (λ n. simulated gui (drained gui n)) (quiet_ping m' h)
      ∙ quiet_simulation (drained gui m') c

  -- A tick that asks the daemon nothing, while it is connected, offers each bus the frames for its number,
  -- in the order in which they came, and empties the queue.
  pub tick-shown :
      (dt : ℕ) (m : Model S) (id : ℕ)
      → m.daemon_connected ≡ true
      → ((m.tick_ns + dt) % 2 ^ 64 + 2 ^ 64 - m.last_ping) % 2 ^ 64 ≤ 2_000_000_000
      → (find_bus id (tick gui dt m).buses ≡ shown id m.frame_queue (find_bus id m.buses))
        × ((tick gui dt m).frame_queue ≡ [])
  unfolding drained
  tick-shown dt m id c h =
      let e = quiet_tick dt m c h in
      (
        ap (λ n. find_bus id n.buses) e ∙ find_bus-receive_frames id m.frame_queue m.buses,
        ap (λ n. n.frame_queue) e,
      )
