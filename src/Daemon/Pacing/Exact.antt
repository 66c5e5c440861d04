-- ===== src/Daemon/Pacing/Exact.antt =====
-- Replays with the timing `exact`: the frames keep the distances of the recording.
use open_vbus.Base.{
  subst, ℕ, ◌+◌, ◌-◌, ◌%◌, ◌^◌, ◌≤◌, ◌<◌, ◌≡◌, ◌∙◌, refl, sym, ap, true, some, List, [], ◌∷◌,
  length, All, arith,
}
use open_vbus.Frame.{Frame}
use open_vbus.Scheduler.{SimTime}
use open_vbus.Vcap.RoundTrip.{IsFront}
use open_vbus.Daemon.Handler.{scale_one}
use open_vbus.Daemon.Pacing.{
  Sending, Play, after_wait, wait_until, fire_at, own_first, shared_first, play_loop, play_own,
  play_shared, started_at,
}
use open_vbus.Daemon.Pacing.Timely.{
  frames_sent, AreInTime, reached, times_of, play-IsPaced, play_ends,
}

-- A time that is not before the origin, and at most 2^53 ns (104 days) after it.
pub record IsNear (first ts : SimTime) : Type 0 where
  pub not_before : first ≤ ts
  pub within : ts < first + 2 ^ 53
  pub fits : ts < 2 ^ 64

-- What a thread does whose frames are to keep their distances from the origin.
pub record IsExact (begin first bound : SimTime) (fs : List Frame) (readings : List SimTime)
    (p : Play) : Type 0 where
  pub in_order : IsFront (frames_sent p.sent) fs
  pub not_early : All (λ s. begin + s.frame.ts_ns ≤ s.seen + first) p.sent
  pub ends : length fs ≤ reached bound readings → (p.over ≡ true) × (frames_sent p.sent ≡ fs)

own_first-set : (first ts : SimTime) → 0 < first → own_first first ts ≡ first
unfolding own_first
own_first-set first ts h = ground arith

own_first-unset : (ts : SimTime) → own_first 0 ts ≡ ts
unfolding own_first
own_first-unset ts = refl

module _ (product : ℕ → ℕ → ℕ) (exact : (n : ℕ) → n < 2 ^ 53 → product n scale_one ≡ n)
    (begin first : SimTime) (early : begin < 2 ^ 63) where
  fire_at_exact :
      (ts : SimTime)
      → IsNear first ts
      → fire_at product scale_one begin first ts ≡ begin + (ts - first)
  unfolding fire_at
  fire_at_exact ts near =
      let small : ts - first < 2 ^ 53 = omega (arith, near.not_before, near.within) in
      let back : (ts + 2 ^ 64 - first) % 2 ^ 64 ≡ ts - first =
        omega (arith, near.not_before, near.fits) in
      ap (λ n. (begin + product n scale_one) % 2 ^ 64) back
      ∙ ap (λ n. (begin + n) % 2 ^ 64) (exact (ts - first) small)
      ∙ omega (arith, small, early)

  module _ (origin : SimTime → SimTime → SimTime)
      (fixed : (ts : SimTime) → origin first ts ≡ first) where
    fire-fixed :
        (ts : SimTime)
        → IsNear first ts
        → fire_at product scale_one begin (origin first ts) ts ≡ begin + (ts - first)
    fire-fixed ts near =
        ap (λ o. fire_at product scale_one begin o ts) (fixed ts) ∙ fire_at_exact ts near

    not_early :
        (fs : List Frame) (sent : List Sending)
        → All (λ f. IsNear first f.ts_ns) fs
        → IsFront (frames_sent sent) fs
        → AreInTime sent (times_of product origin scale_one begin first fs)
        → All (λ s. begin + s.frame.ts_ns ≤ s.seen + first) sent
    unfolding times_of
    not_early fs [] near front times = tt
    not_early (f ∷ fs) (s ∷ ss) (n, near) (same, front) (t, times) = (
      omega (arith, t, fire-fixed f.ts_ns n, n.not_before, ap (λ (g : Frame). g.ts_ns) same),
      not_early fs ss near front (
          subst (λ o. AreInTime ss (times_of product origin scale_one begin o fs)) (fixed f.ts_ns)
            times),
    )
    not_early [] (s ∷ ss) near front times = absurd front

    -- The times lie below a bound where those of the recording do.
    times-bounded :
        (bound : SimTime) (fs : List Frame)
        → All (λ f. IsNear first f.ts_ns) fs
        → All (λ f. begin + f.ts_ns ≤ bound + first) fs
        → All (λ t. t ≤ bound) (times_of product origin scale_one begin first fs)
    unfolding times_of
    times-bounded bound [] near h = tt
    times-bounded bound (f ∷ fs) (n, near) (b, h) = (
      omega (arith, fire-fixed f.ts_ns n, n.not_before, b),
      subst (λ o. All (λ t. t ≤ bound) (times_of product origin scale_one begin o fs))
          (sym (fixed f.ts_ns)) (times-bounded bound fs near h),
    )

    loop-IsExact :
        (bound now : SimTime) (fs : List Frame) (readings : List SimTime)
        → All (λ f. IsNear first f.ts_ns) fs
        → All (λ f. begin + f.ts_ns ≤ bound + first) fs
        → IsExact begin first bound fs readings
            (play_loop product origin true scale_one begin first now fs readings)
    loop-IsExact bound now fs readings near h =
        let p = play-IsPaced product origin scale_one begin fs first now readings in
        record {
          in_order = p.in_order;
          not_early = not_early fs _ near p.in_order p.in_time;
          ends = λ enough.
              let over =
                play_ends product origin scale_one begin bound fs first now readings
                  (times-bounded bound fs near h) enough in
              (over, p.whole over);
        }

  -- A thread of `replay` or `replay-udp` with the timing `exact`, on a file whose first frame has a time
  -- above 0: the frames go out in their order and none is early against the thread's first reading of
  -- the clock and the first frame; when the clock has come to a bound of their times, once for each
  -- frame, all are sent and the thread ends. No frame may have a time before the first one's, nor 2^53
  -- ns after it, the start must be below 2^63, and the product by 1.0 exact below 2^53.
  pub replay-IsExact :
      (bound : SimTime) (f : Frame) (fs : List Frame) (readings : List SimTime)
      → 0 < first
      → f.ts_ns ≡ first
      → All (λ g. IsNear first g.ts_ns) (f ∷ fs)
      → All (λ g. begin + g.ts_ns ≤ bound + first) (f ∷ fs)
      → IsExact begin first bound
          (f ∷ fs)
          readings
          (play_own product true scale_one (f ∷ fs) (begin ∷ readings))
  unfolding play_own play_loop
  replay-IsExact bound f fs readings pos start near h =
      subst
        (λ o. IsExact begin first bound (f ∷ fs) readings (
          after_wait f (wait_until (fire_at product scale_one begin o f.ts_ns) readings)
            λ seen later. play_loop product own_first true scale_one begin o seen fs later))
        same (loop-IsExact own_first keeps bound begin (f ∷ fs) readings near h)
    where
      keeps : (ts : SimTime) → own_first first ts ≡ first
      keeps ts = own_first-set first ts pos

      same : own_first first f.ts_ns ≡ own_first 0 f.ts_ns
      same = keeps f.ts_ns ∙ sym start ∙ sym (own_first-unset f.ts_ns)

  -- A stream of `replay-sync` with the timing `exact`, once the common start is there: the frames go out
  -- in their order and none is early against the common start and the common first time; when the
  -- clock has come to a bound of their times, once for each frame, all are sent and the thread ends.
  -- The times of the frames must not be before the common first time, nor 2^53 ns after it, the start
  -- must be below 2^63, and the product by 1.0 exact below 2^53.
  pub replay_sync-IsExact :
      (bound now : SimTime) (fs : List Frame) (readings later : List SimTime)
      → All (λ f. IsNear first f.ts_ns) fs
      → All (λ f. begin + f.ts_ns ≤ bound + first) fs
      → wait_until begin readings ≡ some (now, later)
      → IsExact begin first bound fs later
          (play_shared product true scale_one begin first fs readings)
  unfolding play_shared started_at shared_first
  replay_sync-IsExact bound now fs readings later near h e =
      subst
        (λ w.
          IsExact begin first bound fs later (started_at product true scale_one begin first fs w))
        (sym e) (loop-IsExact shared_first (λ ts. refl) bound now fs later near h)
