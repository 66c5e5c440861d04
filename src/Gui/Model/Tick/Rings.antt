-- ===== src/Gui/Model/Tick/Rings.antt =====
-- The rings after a tick, against the frames that have come.
use open_vbus.Base.{
  ◌+◌, subst, length-replicate, length-append, if_cases, replicate, ◌∙◌, length-take, ◌&&◌, ◌-◌,
  arith, ltb, take_all, Option, ◌==◌, ap, ◌++◌, if◌then◌else◌, sym, take, ◌^◌, ◌%◌, ◌≤◌, ◌≡◌,
  length, ℕ, zero, suc, refl, true, false, some, List, [], ◌∷◌, inl, inr, Bool-cases,
}
use open_vbus.Gui.Filters.{FilterRule, passes_filters}
use open_vbus.Gui.Client.{RawFrame}
use open_vbus.Gui.Model.{Bus, Packet, Model, Surroundings, find_bus}
use open_vbus.Gui.Model.Tick.{packet_of, pushed, offer, tick}
use open_vbus.Gui.Model.Tick.Shown.{shown, offered, tick-shown}

-- A packet shows a frame: its time, its protocol, the low 16 bits of its length, no VLAN, and the first
-- 64 bytes of its payload, with zeros behind a shorter one.
pub record Shows (f : RawFrame) (p : Packet) : Type 0 where
  pub time : p.timestamp_ns ≡ f.ts_ns
  pub proto : p.proto ≡ f.proto
  pub size : p.size ≡ length f.payload % 2 ^ 16
  pub vlan : p.vlan ≡ 0
  pub long : length p.preview ≡ 64
  pub front : take (length f.payload) p.preview ≡ take 64 f.payload

-- One packet for each frame, in order.
abbrev pub AreShown : List RawFrame → List Packet → Type 0
AreShown [] [] = Unit {0}
AreShown [] (p ∷ ps) = ⊥
AreShown (f ∷ fs) [] = ⊥
AreShown (f ∷ fs) (p ∷ ps) = Shows f p × AreShown fs ps

-- The frames of the queue for a bus that its filters let through, as frames without a VLAN.
abbrev pub wanted : ℕ → List FilterRule → List (ℕ × RawFrame) → List RawFrame
wanted id rules [] = []
wanted id rules ((i, f) ∷ queue) =
    let later = wanted id rules queue in
    if i == id && passes_filters rules 0 (length f.payload % 2 ^ 16) then f ∷ later else later

-- The packets put before a ring one by one, so that the latest comes first.
abbrev pub newest_first : List Packet → List Packet → List Packet
newest_first [] ring = ring
newest_first (p ∷ ps) ring = newest_first ps (p ∷ ring)

take-length : (n : ℕ) (xs ys : List ℕ) → take (length xs) (take n (xs ++ ys)) ≡ take n xs
take-length zero [] ys = refl
take-length (suc n) [] ys = refl
take-length zero (x ∷ xs) ys = refl
take-length (suc n) (x ∷ xs) ys = ap (◌∷◌ x) (take-length n xs ys)

packet_of-Shows : (f : RawFrame) → Shows f (packet_of f)
unfolding packet_of
packet_of-Shows f = record {
  time = refl;
  proto = refl;
  size = refl;
  vlan = refl;
  long = omega (
    arith,
    length-take 64 (f.payload ++ replicate 64 0),
    length-append f.payload (replicate 64 0),
    length-replicate {A = ℕ} 64 0,
  );
  front = take-length 64 f.payload (replicate 64 0);
}

-- A ring that is cut where it has grown beyond `n`.
cut_lem :
    (n : ℕ) (p : Packet) (ring : List Packet)
    → length ring ≤ n
    → let more = p ∷ ring in
      (if ltb n (length more) then take (length more - 1) more else more) ≡ take n more
cut_lem n p ring h =
    if_cases (λ r. r ≡ take n (p ∷ ring)) (ltb n (length (p ∷ ring))) _ _
      (λ e. ap (λ k. take k (p ∷ ring)) (ground arith))
      (λ e. sym (take_all n (p ∷ ring) (ground arith)))

pushed_lem :
    (p : Packet) (ring : List Packet) → length ring ≤ 4096 → pushed p ring ≡ take 4096 (p ∷ ring)
unfolding pushed
pushed_lem p ring h = cut_lem 4096 p ring h

take-take-suc : (n : ℕ) (r : List Packet) → take n (take (suc n) r) ≡ take n r
take-take-suc zero r = refl
take-take-suc (suc n) [] = refl
take-take-suc (suc n) (p ∷ r) = ap (◌∷◌ p) (take-take-suc n r)

take-take : (n : ℕ) (r : List Packet) → take n (take n r) ≡ take n r
take-take n r = take_all n (take n r) (omega (arith, length-take n r))

front-cons :
    (n : ℕ) (p : Packet) (r r' : List Packet)
    → take n r ≡ take n r'
    → take n (p ∷ r) ≡ take n (p ∷ r')
front-cons zero p r r' h = refl
front-cons (suc n) p r r' h =
    ap (◌∷◌ p) (sym (take-take-suc n r) ∙ (ap (take n) h ∙ take-take-suc n r'))

-- What the front of a ring is when packets are put before it depends on the front only.
front-newest_first :
    (n : ℕ) (ps r r' : List Packet)
    → take n r ≡ take n r'
    → take n (newest_first ps r) ≡ take n (newest_first ps r')
front-newest_first n [] r r' h = h
front-newest_first n (p ∷ ps) r r' h =
    front-newest_first n ps (p ∷ r) (p ∷ r') (front-cons n p r r' h)

-- the bus with some packets more
abbrev pub with_packets : List Packet → Bus → Bus
with_packets ps b = record b { ring = take 4096 (newest_first ps b.ring) }

-- The bus after a queue of frames, by the packets that it shows.
abbrev pub AfterFrames : Bus → List RawFrame → Option Bus → Type 0
AfterFrames b fs o = (ps : List Packet) × (o ≡ some (with_packets ps b)) × AreShown fs ps

nothing-AfterFrames : (b : Bus) → length b.ring ≤ 4096 → AfterFrames b [] (some b)
nothing-AfterFrames b h =
    ([], ap (λ r. some (record b { ring = r })) (sym (take_all 4096 b.ring h)), tt)

pushed-AfterFrames :
    (b : Bus) (f : RawFrame) (fs : List RawFrame) (o : Option Bus)
    → length b.ring ≤ 4096
    → AfterFrames (record b { ring = pushed (packet_of f) b.ring }) fs o
    → AfterFrames b (f ∷ fs) o
pushed-AfterFrames b f fs o h (ps, e, a) =
    let p = packet_of f in
    let same = pushed_lem p b.ring h in
    let cut = ap (take 4096) same ∙ take-take 4096 (p ∷ b.ring) in
    (
      p ∷ ps,
      e
          ∙ ap (λ r. some (record b { ring = r }))
              (front-newest_first 4096 ps (pushed p b.ring) (p ∷ b.ring) cut),
      (packet_of-Shows f, a),
    )

length-pushed :
    (p : Packet) (ring : List Packet) → length ring ≤ 4096 → length (pushed p ring) ≤ 4096
length-pushed p ring h = omega (arith, ap length (pushed_lem p ring h), length-take 4096 (p ∷ ring))

offered-passed :
    (b : Bus) (f : RawFrame)
    → b.enabled ≡ true
    → passes_filters b.filters 0 (length f.payload % 2 ^ 16) ≡ true
    → offered f b ≡ record b { ring = pushed (packet_of f) b.ring }
unfolding offer packet_of
offered-passed b f e passed = rw (e, passed) refl

offered-stopped :
    (b : Bus) (f : RawFrame)
    → b.enabled ≡ true
    → passes_filters b.filters 0 (length f.payload % 2 ^ 16) ≡ false
    → offered f b ≡ b
unfolding offer packet_of
offered-stopped b f e stopped = rw (e, stopped) refl

shown-AfterFrames :
    (id : ℕ) (queue : List (ℕ × RawFrame)) (b : Bus)
    → b.enabled ≡ true
    → length b.ring ≤ 4096
    → AfterFrames b (wanted id b.filters queue) (shown id queue (some b))
shown-AfterFrames id [] b e h = nothing-AfterFrames b h
shown-AfterFrames id ((i, f) ∷ queue) b e h = elim (Bool-cases (i == id)) [
  | inr other ↦ rw other (shown-AfterFrames id queue b e h)
  | inl mine ↦ elim (Bool-cases (passes_filters b.filters 0 (length f.payload % 2 ^ 16))) [
    | inl passed ↦
        let later = wanted id b.filters queue in
        let b' = record b { ring = pushed (packet_of f) b.ring } in
        let rest = shown-AfterFrames id queue b' e (length-pushed (packet_of f) b.ring h) in
        rw (mine, passed)
          (subst (λ c. AfterFrames b (f ∷ later) (shown id queue (some c)))
            (sym (offered-passed b f e passed)) (pushed-AfterFrames b f later _ h rest))
    | inr stopped ↦
        rw (mine, stopped)
          (subst (λ c. AfterFrames b (wanted id b.filters queue) (shown id queue (some c)))
            (sym (offered-stopped b f e stopped)) (shown-AfterFrames id queue b e h))
  ]
]

offered-disabled : (b : Bus) (f : RawFrame) → b.enabled ≡ false → offered f b ≡ b
offered-disabled b f e =
    if_cases (λ c. c ≡ b) b.enabled (offer (packet_of f) b) b (λ on. cc) (λ off. refl)

-- A bus that is not enabled takes no frame.
shown-disabled :
    (id : ℕ) (queue : List (ℕ × RawFrame)) (b : Bus)
    → b.enabled ≡ false
    → shown id queue (some b) ≡ some b
shown-disabled id [] b e = refl
shown-disabled id ((i, f) ∷ queue) b e = elim (Bool-cases (i == id)) [
  | inl mine ↦
      rw mine
        (ap (λ c. shown id queue (some c)) (offered-disabled b f e) ∙ shown-disabled id queue b e)
  | inr other ↦ rw other (shown-disabled id queue b e)
]

module _ {S : Type 0} (gui : Surroundings S) where
  -- A tick that asks the daemon nothing, while it is connected, empties the queue; and a bus of 4,096 packets
  -- at most then has, before its packets and cut to 4,096, one packet for each frame of the queue that
  -- is for it and that its filters let through, the latest first, with the frame's time, protocol,
  -- length in 16 bits and first 64 bytes; a bus that is not enabled has no packet more.
  pub tick_shows :
      (dt : ℕ) (m : Model S) (id : ℕ) (b : Bus)
      → m.daemon_connected ≡ true
      → ((m.tick_ns + dt) % 2 ^ 64 + 2 ^ 64 - m.last_ping) % 2 ^ 64 ≤ 2_000_000_000
      → find_bus id m.buses ≡ some b
      → length b.ring ≤ 4096
      → AfterFrames b
          (if b.enabled then wanted id b.filters m.frame_queue else [])
          (find_bus id (tick gui dt m).buses)
        × ((tick gui dt m).frame_queue ≡ [])
  tick_shows dt m id b c quiet found h =
      let (buses, queue) = tick-shown gui dt m id c quiet in
      let after = buses ∙ ap (shown id m.frame_queue) found in
      (
        subst (AfterFrames b (if b.enabled then wanted id b.filters m.frame_queue else []))
            (sym after)
            (if_cases (λ fs. AfterFrames b fs (shown id m.frame_queue (some b))) b.enabled _ _
              (λ on. shown-AfterFrames id m.frame_queue b on h)
              (λ off.
                subst (AfterFrames b []) (sym (shown-disabled id m.frame_queue b off))
                  (nothing-AfterFrames b h))),
        queue,
      )
