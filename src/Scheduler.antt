-- ===== src/Scheduler.antt =====
-- vbus/src/core/clock.h, scheduler.h and scheduler.cpp. A `SimTime` is a signed 64-bit count of
-- nanoseconds, by its bit pattern; `time_key` orders the patterns as the signed numbers they stand for.
-- `std::priority_queue` is the library's: it enters as `PriorityQueue`, by what the standard says of
-- push, top and pop. Which of several items with one time comes first is left open there.
pub mod Drain
pub mod Insertion
mod Tests
use mathlib.Core.List.{Mem}
use open_vbus.Base.{
  ℕ, zero, suc, ◌+◌, ◌%◌, ◌^◌, ◌≤◌, ◌≡◌, Option, none, some, List, [], ◌∷◌, Perm, leb,
  if◌then◌else◌, length,
}

abbrev pub SimTime : Type 0
SimTime = ℕ

abbrev pub time_key : SimTime → ℕ
time_key t = (t + 2 ^ 63) % 2 ^ 64

-- `Scheduler::Item`: a time and what `fn` does then
pub record Item (J : Type 0) : Type 0 where
  pub t : SimTime
  pub fn : J

abbrev pub key : {J : Type 0} → Item J → ℕ
key i = time_key i.t

-- What `std::priority_queue<Item>` promises. `pop` is `top` and `pop` together, `none` on an empty
-- queue; `items` are the contents in any order.
pub record PriorityQueue (J : Type 0) : Type 1 where
  pub Queue : Type 0
  pub empty : Queue
  pub push : Item J → Queue → Queue
  pub pop : Queue → Option (Item J × Queue)
  pub items : Queue → List (Item J)
  pub items-empty : items empty ≡ []
  pub items-push : (i : Item J) (q : Queue) → Perm (items (push i q)) (i ∷ items q)
  pub pop_none : (q : Queue) → pop q ≡ none → items q ≡ []
  pub pop_some :
      (q : Queue) (i : Item J) (q' : Queue)
      → pop q ≡ some (i, q')
      → Perm (items q) (i ∷ items q') × ((j : Item J) → Mem j (items q') → key i ≤ key j)

module _ {J : Type 0} (pq : PriorityQueue J) where
  open pq use {Queue, push, pop, items}

  -- `Scheduler::post`
  unfoldable pub post : SimTime → J → Queue → Queue
  post t fn q = push (record { t = t; fn = fn }) q

  abbrev pub due_step :
      SimTime
      → Queue
      → Option (Item J × Queue)
      → (Queue → List (Item J) × Queue)
      → List (Item J) × Queue
  due_step tmax q none more = ([], q)
  due_step tmax q (some (i, q')) more =
      let later = more q' in if leb (key i) (time_key tmax) then (i ∷ later.0, later.1) else ([], q)

  -- `while (!q.empty() && q.top().t <= tmax)`: what is taken out, in order, and what stays. The fuel
  -- is the number of items.
  unfoldable pub take_due : ℕ → SimTime → Queue → List (Item J) × Queue
  take_due zero tmax q = ([], q)
  take_due (suc fuel) tmax q = due_step tmax q (pop q) (take_due fuel tmax)

  -- the snapshot that `Scheduler::run_until` takes under its lock, before it calls anything
  unfoldable pub snapshot_until : SimTime → Queue → List (Item J) × Queue
  unfolding take_due
  snapshot_until tmax q = take_due (length (items q)) tmax q

  abbrev pub all_step :
      Queue → Option (Item J × Queue) → (Queue → List (Item J) × Queue) → List (Item J) × Queue
  all_step q none more = ([], q)
  all_step q (some (i, q')) more = let later = more q' in (i ∷ later.0, later.1)

  unfoldable pub take_all_due : ℕ → Queue → List (Item J) × Queue
  take_all_due zero q = ([], q)
  take_all_due (suc fuel) q = all_step q (pop q) (take_all_due fuel)

  -- the snapshot of `Scheduler::run`: everything
  unfoldable pub snapshot_all : Queue → List (Item J) × Queue
  unfolding take_all_due
  snapshot_all q = take_all_due (length (items q)) q

-- `for (auto &item : ready) item.fn();`
unfoldable pub call_all {ℓ} : {J : Type 0} {S : Type ℓ} → (J → S → S) → List (Item J) → S → S
call_all run [] s = s
call_all run (i ∷ is) s = call_all run is (run i.fn s)
