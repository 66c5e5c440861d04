-- ===== src/Daemon/Recording.antt =====
-- What the main loop of vbusd.cpp writes to the recorders, from the scheduler to the file.
use open_vbus.Frame.{Frame}
use open_vbus.Base.{
  sym, ◌≤◌, arith, length, ◌+◌, Bool-cases, update, All, none, some, [], true, false, List, ap, ap,
  inr, ◌==◌, if◌then◌else◌, ◌∙◌, inl, Option-cases, ◌∷◌, ◌++◌, false, some, Bool, ◌≡◌, Option, List,
  ℕ, refl,
}
use open_vbus.Vcap.{Recorder, write_frame, open_recorder, new_recorder}
use open_vbus.Vcap.Records.{IsStorable}
use open_vbus.Vcap.RoundTrip.{body, record_all, replay_file, replay_recording}
use open_vbus.Scheduler.{SimTime, Item, snapshot_until, call_all}
use open_vbus.Scheduler.Insertion.{insertion_queue}
use open_vbus.Bus.{Job, record_frame, stream_frame, receive, count_rx, receive_all, deliver, if_set}
use open_vbus.Daemon.State.{
  World, Os, Handle, log, put_bus, close_pipe, write_pipe, run_sub, run_effect, run_effects,
  run_job, bus_at,
}
use open_vbus.Daemon.Serve.{tick}

abbrev pub goes_to : ℕ → Option ℕ → Bool
goes_to r none = false
goes_to r (some cb) = cb == r

-- The frames of some deliveries that go to the recorder `r`, in their order.
abbrev pub recorded : ℕ → List (Item Job) → List Frame
recorded r [] = []
recorded r (i ∷ due) =
    let later = recorded r due in if goes_to r i.fn.rec_cb then i.fn.frame ∷ later else later

-- The deliveries that are due, in the order in which the main loop calls them.
abbrev pub due_at : SimTime → World → List (Item Job)
due_at now w = (snapshot_until (insertion_queue Job) now w.sched).0

write_pipe-recorders :
    (accepts : Bool) (p : Option Handle) (s : ℕ) (f : Frame) (w : World)
    → (write_pipe accepts p s f w).recorders ≡ w.recorders
unfolding write_pipe close_pipe log
write_pipe-recorders accepts none s f w = refl
write_pipe-recorders true (some h) s f w = refl
write_pipe-recorders false (some h) s f w = refl

count_rx-recorders :
    (os : Os) (a : ℕ) (w : World) → (run_effect os (count_rx a) w).recorders ≡ w.recorders
unfolding run_effect log put_bus
count_rx-recorders os a w = elim (Option-cases (bus_at a w.buses)) [
  | inl e ↦ rw (run_effect, e) refl
  | inr (b, e) ↦ rw (run_effect, e) refl
]

receive-recorders :
    (os : Os) (ep : ℕ) (f : Frame) (w : World)
    → (run_effect os (receive ep f) w).recorders ≡ w.recorders
unfolding run_effect log
receive-recorders os ep f w = refl

receive_all-recorders :
    (os : Os) (stats : ℕ) (f : Frame) (eps : List ℕ) (w : World)
    → (run_effects os (receive_all stats f eps) w).recorders ≡ w.recorders
unfolding run_effects receive_all
receive_all-recorders os stats f [] w = refl
receive_all-recorders os stats f (ep ∷ eps) w =
    receive_all-recorders os stats f eps _
    ∙ count_rx-recorders os stats _
    ∙ receive-recorders os ep f w

-- the rest of a delivery, behind the recorder's callback
streamed-recorders :
    (os : Os) (sub : Option ℕ) (stats : ℕ) (f : Frame) (eps : List ℕ) (w : World)
    → (run_effects os (if_set sub (λ cb. stream_frame cb f) ++ receive_all stats f eps) w).recorders
      ≡ w.recorders
unfolding run_effects run_effect run_sub
streamed-recorders os none stats f eps w = receive_all-recorders os stats f eps w
streamed-recorders os (some s) stats f eps w =
    receive_all-recorders os stats f eps _
    ∙ write_pipe-recorders os.pipe_accepts (w.subs s).pipe s f w

update-written :
    (f : Frame) (h : ℕ → Recorder) (cb r : ℕ)
    → update h cb (write_frame f (h cb)).1 r
      ≡ (if goes_to r (some cb) then (write_frame f (h r)).1 else h r)
update-written f h cb r = elim (Bool-cases (cb == r)) [
  | inl e ↦ rw e (ap (λ p. (write_frame f (h p)).1) (ground arith))
  | inr e ↦ rw e refl
]

written_first :
    (here : Bool) (f : Frame) (later : List Frame) (rec : Recorder)
    → record_all later (if here then (write_frame f rec).1 else rec)
      ≡ record_all (if here then f ∷ later else later) rec
unfolding record_all
written_first true f later rec = refl
written_first false f later rec = refl

delivered-recorded :
    (os : Os) (rec_cb sub_cb : Option ℕ) (stats r : ℕ) (f : Frame) (eps : List ℕ) (w : World)
    → (run_effects os
          (if_set rec_cb (λ cb. record_frame cb f)
            ++ (if_set sub_cb (λ cb. stream_frame cb f) ++ receive_all stats f eps))
          w).recorders
        r
      ≡ (if goes_to r rec_cb then (write_frame f (w.recorders r)).1 else w.recorders r)
unfolding run_effects run_effect
delivered-recorded os none sub stats r f eps w =
    ap (λ (h : ℕ → Recorder). h r) (streamed-recorders os sub stats f eps w)
delivered-recorded os (some cb) sub stats r f eps w =
    ap (λ (h : ℕ → Recorder). h r) (streamed-recorders os sub stats f eps _)
    ∙ update-written f w.recorders cb r

calls-recorded :
    (os : Os) (due : List (Item Job)) (w : World) (r : ℕ)
    → (call_all (run_job os) due w).recorders r ≡ record_all (recorded r due) (w.recorders r)
unfolding call_all record_all run_job deliver
calls-recorded os [] w r = refl
calls-recorded os (i ∷ due) w r =
    calls-recorded os due _ r
    ∙ (ap (record_all (recorded r due))
          (delivered-recorded os i.fn.rec_cb i.fn.sub_cb i.fn.stats r i.fn.frame i.fn.targets w)
        ∙ written_first (goes_to r i.fn.rec_cb) i.fn.frame (recorded r due) (w.recorders r))

record_all-append :
    (fs gs : List Frame) (rec : Recorder)
    → record_all (fs ++ gs) rec ≡ record_all gs (record_all fs rec)
unfolding record_all
record_all-append [] gs rec = refl
record_all-append (f ∷ fs) gs rec = record_all-append fs gs (write_frame f rec).1

-- A turn of the main loop adds to the recording `fs` of a recorder the frames of the deliveries that
-- are due and go to it, in the order of the deliveries, whatever the other deliveries do; the file
-- then replays to `fs` and these frames. The recorder was opened on a device with room for them, and
-- every frame must be storable.
pub tick-recorded :
    (os : Os) (now : SimTime) (w : World) (r n : ℕ) (fs : List Frame)
    → w.recorders r ≡ record_all fs (open_recorder (some n) new_recorder).1
    → All IsStorable (fs ++ recorded r (due_at now w))
    → 16 + length (body (fs ++ recorded r (due_at now w))) ≤ n
    → ((tick os now w).recorders r
        ≡ record_all (fs ++ recorded r (due_at now w)) (open_recorder (some n) new_recorder).1)
      × (replay_file ((tick os now w).recorders r).out.written
          ≡ some (fs ++ recorded r (due_at now w)))
unfolding tick
tick-recorded os now w r n fs e storable room =
    let due = due_at now w in
    let (_, rest) = snapshot_until (insertion_queue Job) now w.sched in
    let made =
      calls-recorded os due (record w { sched = rest }) r
      ∙ (ap (record_all (recorded r due)) e
          ∙ sym (record_all-append fs (recorded r due) (open_recorder (some n) new_recorder).1)) in
    (
      made,
      ap (λ (rec : Recorder). replay_file rec.out.written) made
          ∙ replay_recording (fs ++ recorded r due) n storable room,
    )
