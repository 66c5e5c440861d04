-- ===== src/Daemon/Invariant/Fine.antt =====
-- The outcomes that keep the invariant.
use open_vbus.Daemon.Replies.{Reply}
use open_vbus.Daemon.Invariant.Wraps.{All-lookup, IsLinked, IsSound}
use open_vbus.Daemon.State.{BusWrap, World}
use open_vbus.Base.{
  inr, inl, if◌then◌else◌, Option-cases, Bool, ℕ, Option, none, some, Text, lookup, if_cases,
}
use open_vbus.Daemon.Handler.{Outcome, answered, terminated, with_bus, with_number}

-- Where a command ends: in a sound world, or with the program.
pub data IsFine : Outcome → Type 0 where
  fine : {w : World} {r : Reply} {stay : Bool} → IsSound w → IsFine (answered w r stay)
  stopped : IsFine terminated

pub with_bus-IsFine :
    (name : Text) (w : World) (k : BusWrap → Outcome)
    → IsSound w
    → ((b : BusWrap) → IsLinked b → IsFine (k b))
    → IsFine (with_bus name w k)
with_bus-IsFine name w k h hk = elim (Option-cases (lookup name w.buses)) [
  | inl e ↦ rw (with_bus, e) (fine h)
  | inr (b, e) ↦ rw (with_bus, e) (hk b (All-lookup IsLinked name w.buses b h.0 e))
]

pub with_number-IsFine :
    (n : Option ℕ) (k : ℕ → Outcome) → ((p : ℕ) → IsFine (k p)) → IsFine (with_number n k)
with_number-IsFine none k h = stopped
with_number-IsFine (some n) k h = h n

pub branches-IsFine : (t : Bool) (x y : Outcome) → IsFine x → IsFine y → IsFine (if t then x else y)
branches-IsFine t x y hx hy = if_cases IsFine t x y (λ _. hx) (λ _. hy)
