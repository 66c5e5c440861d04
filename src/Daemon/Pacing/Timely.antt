-- ===== src/Daemon/Pacing/Timely.antt =====
-- The order and the times of what a replay thread sends, and that it ends.
use open_vbus.Base.{
  ℕ, suc, ◌+◌, ◌≤◌, ◌≡◌, ◌∙◌, refl, ap, true, false, Option, none, some, List, [], ◌∷◌, length, All,
  ltb, Bool-cases, inl, inr, if◌then◌else◌, arith,
}
use open_vbus.Frame.{Frame}
use open_vbus.Scheduler.{SimTime}
use open_vbus.Vcap.RoundTrip.{IsFront}
use open_vbus.Daemon.Pacing.{Sending, Play, wait_until, after_wait, fire_at, play_loop}

abbrev pub frames_sent : List Sending → List Frame
frames_sent [] = []
frames_sent (s ∷ ss) = s.frame ∷ frames_sent ss

-- Each frame goes out at a reading of its time or later.
abbrev pub AreInTime : List Sending → List SimTime → Type 0
AreInTime [] times = Unit {0}
AreInTime (s ∷ ss) [] = ⊥
AreInTime (s ∷ ss) (t ∷ times) = (t ≤ s.seen) × AreInTime ss times

-- A run of a thread: what it sends, against the frames of the file and their times.
pub record IsPaced (fs : List Frame) (times : List SimTime) (p : Play) : Type 0 where
  pub in_order : IsFront (frames_sent p.sent) fs
  pub whole : p.over ≡ true → frames_sent p.sent ≡ fs
  pub in_time : AreInTime p.sent times

wait_until-late :
    (fire : SimTime) (readings : List SimTime) (seen : SimTime) (later : List SimTime)
    → wait_until fire readings ≡ some (seen, later)
    → fire ≤ seen
unfolding wait_until
wait_until-late fire [] seen later e = cc
wait_until-late fire (now ∷ rest) seen later e =
    ground (arith, wait_until-late fire rest seen later)

-- the readings that have come to a time
pub reached : SimTime → List SimTime → ℕ
reached bound [] = 0
reached bound (r ∷ rs) = (if ltb r bound then 0 else 1) + reached bound rs

-- A wait ends where enough readings have come to its time, and costs one of them.
wait_until-ends :
    (fire bound : SimTime) (n : ℕ) (readings : List SimTime)
    → fire ≤ bound
    → suc n ≤ reached bound readings
    → (seen : SimTime) × (later : List SimTime) × (wait_until fire readings ≡ some (seen, later))
      × (n ≤ reached bound later)
unfolding wait_until reached
wait_until-ends fire bound n [] h k = absurd (omega arith)
wait_until-ends fire bound n (r ∷ readings) h k = elim (Bool-cases (ltb r fire)) [
  | inl early ↦
      let (seen, later, e, more) = wait_until-ends fire bound n readings h (ground arith) in
      (seen, later, rw early e, more)
  | inr due ↦ (r, readings, rw due, ground arith)
]

some_inj : (p q : SimTime × List SimTime) → some p ≡ some q → p ≡ q
some_inj p q e = cc

module _ (product : ℕ → ℕ → ℕ) (origin : SimTime → SimTime → SimTime) (scale : ℕ)
    (begin : SimTime) where
  -- The time of each frame, from the origin so far.
  unfoldable pub times_of : SimTime → List Frame → List SimTime
  times_of first [] = []
  times_of first (f ∷ fs) =
      fire_at product scale begin (origin first f.ts_ns) f.ts_ns
      ∷ times_of (origin first f.ts_ns) fs

  after_wait-IsPaced :
      (f : Frame) (fs : List Frame) (fire : SimTime) (times : List SimTime)
      (w : Option (SimTime × List SimTime)) (k : SimTime → List SimTime → Play)
      → ((seen : SimTime) (later : List SimTime) → w ≡ some (seen, later) → fire ≤ seen)
      → ((seen : SimTime) (later : List SimTime) → IsPaced fs times (k seen later))
      → IsPaced (f ∷ fs) (fire ∷ times) (after_wait f w k)
  unfolding after_wait
  after_wait-IsPaced f fs fire times none k late ih = record {
    in_order = tt;
    whole = λ e. cc;
    in_time = tt;
  }
  after_wait-IsPaced f fs fire times (some (seen, later)) k late ih =
      let r = ih seen later in
      record {
        in_order = (refl, r.in_order);
        whole = λ e. ap (◌∷◌ f) (r.whole e);
        in_time = (late seen later refl, r.in_time);
      }

  -- With timing, a thread sends the frames of the file in their order and each one no earlier than its
  -- time, whatever the clock reads; when its loop has ended, it has sent them all.
  pub play-IsPaced :
      (fs : List Frame) (first now : SimTime) (readings : List SimTime)
      → IsPaced fs
          (times_of first fs)
          (play_loop product origin true scale begin first now fs readings)
  unfolding play_loop times_of
  play-IsPaced [] first now readings = record { in_order = tt; whole = λ e. refl; in_time = tt }
  play-IsPaced (f ∷ fs) first now readings =
      after_wait-IsPaced f fs _ _ (wait_until _ readings) _ (wait_until-late _ readings)
        (λ seen later. play-IsPaced fs (origin first f.ts_ns) seen later)

  ended :
      (f : Frame) (w : Option (SimTime × List SimTime)) (k : SimTime → List SimTime → Play)
      (seen : SimTime) (later : List SimTime)
      → w ≡ some (seen, later)
      → (k seen later).over ≡ true
      → (after_wait f w k).over ≡ true
  unfolding after_wait
  ended f none k seen later e h = cc
  ended f (some (s, l)) k seen later e h =
      ap (λ (p : SimTime × List SimTime). (k p.0 p.1).over) (some_inj (s, l) (seen, later) e) ∙ h

  -- When the clock has come to a bound of the times, once for each frame, the loop has ended.
  pub play_ends :
      (bound : SimTime) (fs : List Frame) (first now : SimTime) (readings : List SimTime)
      → All (λ t. t ≤ bound) (times_of first fs)
      → length fs ≤ reached bound readings
      → (play_loop product origin true scale begin first now fs readings).over ≡ true
  unfolding play_loop times_of
  play_ends bound [] first now readings h k = refl
  play_ends bound (f ∷ fs) first now readings (t, h) k =
      let (seen, later, e, more) = wait_until-ends _ bound (length fs) readings t k in
      ended f (wait_until _ readings) _ seen later e
        (play_ends bound fs (origin first f.ts_ns) seen later h more)

  -- Without timing, a thread sends all frames of the file in their order, and waits for nothing.
  pub play_burst :
      (fs : List Frame) (first now : SimTime) (readings : List SimTime)
      → (frames_sent (play_loop product origin false scale begin first now fs readings).sent ≡ fs)
        × ((play_loop product origin false scale begin first now fs readings).over ≡ true)
  unfolding play_loop
  play_burst [] first now readings = (refl, refl)
  play_burst (f ∷ fs) first now readings =
      let (all, over) = play_burst fs first now readings in (ap (◌∷◌ f) all, over)
