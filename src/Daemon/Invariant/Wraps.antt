-- ===== src/Daemon/Invariant/Wraps.antt =====
-- The invariant, and the helpers of vbusd.cpp that keep it.
use open_vbus.Scheduler.{Item}
use mathlib.Core.List.{Mem}
use open_vbus.Base.{
  if_cases, ℕ, Bool, true, false, ◌≡◌, refl, Option, none, some, List, [], ◌∷◌, Text, lookup,
  insert, erase, All, arith, text_eq,
}
use open_vbus.Net.{Capture, Socket, stop, Sink}
use open_vbus.Bus.{Job, set_fwd_cb, set_sub_cb, set_record_cb}
use open_vbus.Daemon.State.{
  close_pipe, install_recorder, stop_cap, destroy_sink, attach_recorder, reset_sink, attach_sub,
  detach_recorder, close_sub, log_all, stop_capture, detach_sub, BusWrap, World, Os, Event, fault,
  log, put_bus,
}

abbrev pub address_of : Option Sink → Option ℕ
address_of none = none
address_of (some k) = some k.address

-- A bus has no endpoints, and its record and forward callbacks are its recorder's and its sink's.
abbrev pub IsLinked : BusWrap → Type 0
IsLinked b = (b.bus.endpoints ≡ []) × (b.bus.rec_cb ≡ b.rec) × (b.bus.fwd_cb ≡ address_of b.sink)

unfoldable pub is_fault : Event → Bool
is_fault fault = true
is_fault _ = false

abbrev pub IsSound : World → Type 0
IsSound w =
    All (λ e. IsLinked e.1) w.buses
    × ((i : Item Job) → Mem i w.sched → i.fn.targets ≡ [])
    × All (λ e. is_fault e ≡ false) w.events

module _ {V : Type 0} (P : V → Type 0) where
  pub All-insert :
      (k : Text) (v : V) (m : List (Text × V))
      → P v
      → All (λ e. P e.1) m
      → All (λ e. P e.1) (insert k v m)
  unfolding insert
  All-insert k v [] p h = (p, tt)
  All-insert k v ((j, x) ∷ m) p (q, h) =
      if_cases (All (λ e. P e.1)) (text_eq j k) _ _ (λ _. (p, h)) (λ _. (q, All-insert k v m p h))

  pub All-erase :
      (k : Text) (m : List (Text × V)) → All (λ e. P e.1) m → All (λ e. P e.1) (erase k m)
  unfolding erase
  All-erase k [] h = tt
  All-erase k ((j, x) ∷ m) (q, h) =
      if_cases (All (λ e. P e.1)) (text_eq j k) _ _ (λ _. All-erase k m h)
        (λ _. (q, All-erase k m h))

  pub All-lookup :
      (k : Text) (m : List (Text × V)) (v : V) → All (λ e. P e.1) m → lookup k m ≡ some v → P v
  unfolding lookup
  All-lookup k [] v h e = ground arith
  All-lookup k ((j, x) ∷ m) v (q, h) e = ground (arith, All-lookup k m v h)

pub log-IsSound : (e : Event) (w : World) → is_fault e ≡ false → IsSound w → IsSound (log e w)
unfolding log
log-IsSound e w q (hb, hs, he) = (hb, hs, (q, he))

pub put_bus-IsSound :
    (n : Text) (b : BusWrap) (w : World) → IsLinked b → IsSound w → IsSound (put_bus n b w)
unfolding put_bus
put_bus-IsSound n b w h (hb, hs, he) = (All-insert IsLinked n b w.buses h hb, hs, he)

pub close_pipe-IsSound : (p : Option ℕ) (s : ℕ) (w : World) → IsSound w → IsSound (close_pipe p s w)
unfolding close_pipe log is_fault
close_pipe-IsSound none s w h = h
close_pipe-IsSound (some p) s w (hb, hs, he) = (hb, hs, (refl, he))

pub close_sub-IsSound : (s : ℕ) (w : World) → IsSound w → IsSound (close_sub s w)
unfolding close_sub
close_sub-IsSound s w h = close_pipe-IsSound (w.subs s).pipe s w h

pub log_all-IsSound : (ss : List Socket) (w : World) → IsSound w → IsSound (log_all ss w)
unfolding log_all is_fault
log_all-IsSound [] w h = h
log_all-IsSound (s ∷ ss) w (hb, hs, he) = log_all-IsSound ss _ (hb, hs, (refl, he))

-- What a step on one bus keeps.
abbrev pub IsKept : BusWrap × World → Type 0
IsKept r = IsLinked r.0 × IsSound r.1

pub detach_recorder-IsLinked : (b : BusWrap) → IsLinked b → IsLinked (detach_recorder b)
unfolding detach_recorder set_record_cb
detach_recorder-IsLinked b (he, hr, hf) = (he, refl, hf)

install_recorder-IsLinked :
    (t : Bool) (r : ℕ) (b : BusWrap) → IsLinked b → IsLinked (install_recorder t r b)
unfolding install_recorder set_record_cb
install_recorder-IsLinked true r b (he, hr, hf) = (he, refl, hf)
install_recorder-IsLinked false r b h = h

pub attach_recorder-IsKept :
    (os : Os) (path : Text) (b : BusWrap) (w : World)
    → IsLinked b
    → IsSound w
    → IsKept (attach_recorder os path b w)
unfolding attach_recorder
attach_recorder-IsKept os path b w hl h =
    (install_recorder-IsLinked _ w.next _ (detach_recorder-IsLinked b hl), h)

pub attach_sub-IsKept :
    (p : ℕ) (b : BusWrap) (w : World) → IsLinked b → IsSound w → IsKept (attach_sub p b w)
unfolding attach_sub set_sub_cb
attach_sub-IsKept p b w hl h = (hl, close_sub-IsSound b.sub w h)

pub detach_sub-IsKept : (b : BusWrap) (w : World) → IsLinked b → IsSound w → IsKept (detach_sub b w)
unfolding detach_sub set_sub_cb
detach_sub-IsKept b w hl h = (hl, close_sub-IsSound b.sub w h)

stop_cap-IsKept :
    (c : Option Capture) (b : BusWrap) (w : World)
    → IsLinked b
    → IsSound w
    → IsKept (stop_cap c b w)
unfolding stop_cap
stop_cap-IsKept none b w hl h = (hl, h)
stop_cap-IsKept (some c) b w hl h = (hl, log_all-IsSound (stop c).0 w h)

pub stop_capture-IsKept :
    (b : BusWrap) (w : World) → IsLinked b → IsSound w → IsKept (stop_capture b w)
unfolding stop_capture
stop_capture-IsKept b w = stop_cap-IsKept b.cap b w

destroy_sink-IsKept :
    (k : Option Sink) (b : BusWrap) (w : World)
    → IsLinked b
    → IsSound w
    → IsKept (destroy_sink k b w)
unfolding destroy_sink set_fwd_cb is_fault log
destroy_sink-IsKept none b w hl h = (hl, h)
destroy_sink-IsKept (some k) b w (he, hr, hf) (hb, hs, hn) = ((he, hr, refl), (hb, hs, (refl, hn)))

pub reset_sink-IsKept : (b : BusWrap) (w : World) → IsLinked b → IsSound w → IsKept (reset_sink b w)
unfolding reset_sink
reset_sink-IsKept b w = destroy_sink-IsKept b.sink b w
