-- ===== src/Daemon/Invariant/Steps.antt =====
-- The invariant under a frame's way: `Send`, the forward callback, and the scheduled delivery.
use mathlib.Core.Logic.Or.{inr, inl}
use open_vbus.Base.{
  ◌^◌, ◌%◌, ◌+◌, ◌++◌, ℕ, Bool, true, false, ◌≡◌, refl, Option, none, some, List, [], ◌∷◌, Text,
  arith, ◌==◌,
}
use mathlib.Core.List.{Mem, mem-append, mem-cons, mem-cons_self}
use mathlib.Core.List.Perm
use mathlib.Core.Logic.Or
use open_vbus.Frame.{Frame}
use open_vbus.Net.{forward, Sink, Socket}
use open_vbus.Scheduler.{Item, post, SimTime, call_all}
use open_vbus.Scheduler.Drain.{snapshot_until-IsSnapshot}
use open_vbus.Scheduler.Insertion.{insertion_queue}
use open_vbus.Bus.{
  stamp, delay_of, Kind, can, eth, stream_frame, targets_of, record_frame, send_at, receive_all,
  Bus, Job, Effect, send, deliver,
}
use open_vbus.Bus
use open_vbus.Daemon.State.{
  World, BusWrap, Os, log, put_bus, run_forward, send_on, run_effects, run_effect, run_job, run_sub,
  send_datagram, write_pipe,
}
use open_vbus.Daemon.Serve.{tick}
use open_vbus.Daemon.Invariant.Wraps.{
  All-insert, IsLinked, IsSound, address_of, is_fault, close_pipe-IsSound,
}

send_datagram-IsSound :
    (d : Option (Socket × Text)) (w : World) → IsSound w → IsSound (send_datagram d w)
unfolding send_datagram log is_fault
send_datagram-IsSound none w h = h
send_datagram-IsSound (some (s, bytes)) w (hb, hs, he) = (hb, hs, (refl, he))

-- The forward callback of a frame that was sent by a linked bus finds its sink.
run_forward-IsSound :
    (k : Option Sink) (cb : Option ℕ) (f : Frame) (w : World)
    → cb ≡ address_of k
    → IsSound w
    → IsSound (run_forward k (Bus.to_callback cb f) w)
unfolding run_forward
run_forward-IsSound k none f w e h = ground arith
run_forward-IsSound none (some cb) f w e h = ground arith
run_forward-IsSound (some k) (some cb) f w e h =
    let same : k.address == cb ≡ true = ground arith in
    rw same (send_datagram-IsSound (forward k f) w h)

-- What a `Send` hands over and schedules, from the stamped frame on.
post-IsSound :
    (b : BusWrap) (f : Frame) (i : Item Job) (w : World)
    → IsLinked b
    → i.fn.targets ≡ []
    → IsSound w
    → let w' = run_forward b.sink (Bus.to_callback b.bus.fwd_cb f) w in
      IsSound (record w' { sched = i ∷ w'.sched })
post-IsSound b f i w (ha, hr, hf) e h =
    let (hb, hs, he) = run_forward-IsSound b.sink b.bus.fwd_cb f w hf h in
    (hb, (λ j m. Or.elim (hlevel) (mem-cons.0 m) (λ p. rw p e) (hs j)), he)

-- Both classes' `Send` stamps the frame and finds a time; the rest is shared.
send_lem :
    (now₁ now₂ : SimTime) (f : Frame) (b : Bus) (k : Kind)
    → b.kind ≡ k
    → (t : SimTime) × (g : Frame) × (send now₁ now₂ none f b ≡ send_at t none g b)
unfolding send
send_lem now₁ now₂ f b (eth r) e =
    ((now₂ + delay_of (eth r) f) % 2 ^ 64, stamp (eth r) now₁ f, rw e refl)
send_lem now₁ now₂ f b (can r) e =
    ((now₁ + delay_of (can r) f) % 2 ^ 64, stamp (can r) now₂ f, rw e refl)

pub send_on-IsSound :
    (os : Os) (n : Text) (b : BusWrap) (f : Frame) (w : World)
    → IsLinked b
    → IsSound w
    → IsSound (send_on os n b f w)
unfolding send_on post send_at put_bus targets_of
send_on-IsSound os n b f w hl h =
    let (t, g, e) = send_lem os.now₁ os.now₂ f b.bus b.bus.kind refl in
    let (hb, hs, he) = post-IsSound b g (send_at t none g b.bus).item w hl hl.0 h in
    rw e ((All-insert IsLinked n _ _ hl hb), hs, he)

write_pipe-IsSound :
    (t : Bool) (p : Option ℕ) (s : ℕ) (f : Frame) (w : World)
    → IsSound w
    → IsSound (write_pipe t p s f w)
unfolding write_pipe log is_fault
write_pipe-IsSound t none s f w h = h
write_pipe-IsSound true (some p) s f w (hb, hs, he) = (hb, hs, (refl, he))
write_pipe-IsSound false (some p) s f w h = close_pipe-IsSound (some p) s w h

-- A delivery without targets does nothing but record and stream.
run_effects-IsSound :
    (os : Os) (r s : Option ℕ) (f : Frame) (w : World)
    → IsSound w
    → IsSound (
        run_effects os
          (Bus.if_set r (λ cb. record_frame cb f) ++ (Bus.if_set s (λ cb. stream_frame cb f) ++ []))
          w)
unfolding run_effects run_effect run_sub
run_effects-IsSound os none none f w h = h
run_effects-IsSound os (some r) none f w h = h
run_effects-IsSound os none (some s) f w h = write_pipe-IsSound _ _ s f w h
run_effects-IsSound os (some r) (some s) f w h = write_pipe-IsSound _ _ s f _ h

run_job-IsSound :
    (os : Os) (j : Job) (w : World) → j.targets ≡ [] → IsSound w → IsSound (run_job os j w)
unfolding run_job deliver receive_all
run_job-IsSound os j w e h = rw e (run_effects-IsSound os j.rec_cb j.sub_cb j.frame w h)

call_all-IsSound :
    (os : Os) (is : List (Item Job)) (w : World)
    → ((i : Item Job) → Mem i is → i.fn.targets ≡ [])
    → IsSound w
    → IsSound (call_all (run_job os) is w)
unfolding call_all
call_all-IsSound os [] w ht h = h
call_all-IsSound os (i ∷ is) w ht h =
    call_all-IsSound os is _ (λ j m. ht j (mem-cons.1 (inr m)))
      (run_job-IsSound os i.fn w (ht i mem-cons_self) h)

-- The main loop's call of the scheduler keeps the invariant.
pub tick-IsSound : (os : Os) (now : SimTime) (w : World) → IsSound w → IsSound (tick os now w)
unfolding tick
tick-IsSound os now w (hb, hs, he) =
    let split = snapshot_until-IsSnapshot (insertion_queue Job) now w.sched in
    call_all-IsSound os _ _ (λ i m. hs i ((Perm.mem_iff split.same).0 (mem-append.1 (inl m))))
      (hb, (λ i m. hs i ((Perm.mem_iff split.same).0 (mem-append.1 (inr m)))), he)
