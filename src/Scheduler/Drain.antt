-- ===== src/Scheduler/Drain.antt =====
-- The snapshots of scheduler.cpp: what `run_until` and `run` take out of the queue.
use mathlib.Core.List.{Mem, mem-append, mem-cons, not-mem-nil, mem-cons_self}
use mathlib.Core.List
use mathlib.Core.List.Perm
use mathlib.Core.Logic.Or
use native.Mathlib.Bridge.{le_prop, from_ℕ}
use open_vbus.Base.{
  ℕ, zero, suc, ◌≤◌, ◌<◌, ◌≡◌, refl, ap, sym, ◌∙◌, Option, none, some, [], ◌∷◌, ◌++◌, Perm, leb,
  length, arith, Bool-cases, inl, inr, leb→le, not_leb→lt,
}
use open_vbus.Base.{List as Seq}
use open_vbus.Scheduler.{
  PriorityQueue, SimTime, time_key, Item, key, due_step, all_step, take_due, snapshot_until,
  take_all_due, snapshot_all,
}

length-eq-from_ℕ {ℓ} : {A : Type ℓ} (xs : Seq A) → length xs ≡ from_ℕ (List.length xs)
length-eq-from_ℕ [] = refl
length-eq-from_ℕ (x ∷ xs) = ap suc (length-eq-from_ℕ xs)

pub length-perm {ℓ} : {A : Type ℓ} {xs ys : Seq A} → Perm xs ys → length xs ≡ length ys
length-perm {xs} {ys} p =
    length-eq-from_ℕ xs ∙ ap from_ℕ (Perm.length-eq p) ∙ sym (length-eq-from_ℕ ys)

module _ {J : Type 0} where
  -- Earlier items come first.
  abbrev pub IsSorted : Seq (Item J) → Type 0
  IsSorted [] = Unit
  IsSorted (i ∷ is) = ((j : Item J) → Mem j is → key i ≤ key j) × IsSorted is

  -- `ready` is what a snapshot at `tmax` takes from `all`, `rest` what it leaves.
  pub record IsSnapshot (tmax : SimTime) (all ready rest : Seq (Item J)) : Type 0 where
    pub same : Perm (ready ++ rest) all
    pub sorted : IsSorted ready
    pub due : (i : Item J) → Mem i ready → key i ≤ time_key tmax
    pub waiting : (i : Item J) → Mem i rest → time_key tmax < key i

module _ {J : Type 0} (pq : PriorityQueue J) where
  open pq use {Queue, pop, items}

  nothing_left : (q : Queue) (i : Item J) → length (items q) ≤ 0 → ¬ Mem i (items q)
  nothing_left q i h m = go (items q) h m
    where
      go : (xs : Seq (Item J)) → length xs ≤ 0 → ¬ Mem i xs
      go [] h m = not-mem-nil m
      go (x ∷ xs) h m = absurd (omega arith)

  pop-length :
      (q : Queue) (i : Item J) (q' : Queue) {n : ℕ}
      → pop q ≡ some (i, q')
      → length (items q) ≤ suc n
      → length (items q') ≤ n
  pop-length q i q' e h = omega (arith, length-perm (pq.pop_some q i q' e).0)

  -- The loop, from what `top` and `pop` answer on.
  due_step-IsSnapshot :
      (tmax : SimTime) (q : Queue) (o : Option (Item J × Queue))
      (more : Queue → Seq (Item J) × Queue)
      → pop q ≡ o
      → ((i : Item J) (q' : Queue)
          → pop q ≡ some (i, q')
          → IsSnapshot tmax (items q') (more q').0 (items (more q').1))
      → let (ready, q') = due_step pq tmax q o more in IsSnapshot tmax (items q) ready (items q')
  due_step-IsSnapshot tmax q none more e ih = record {
    same = Perm.refl _;
    sorted = tt;
    due = λ i m. absurd (not-mem-nil m);
    waiting = λ i m. absurd (nothing_left q i (omega (arith, ap length (pq.pop_none q e))) m);
  }
  due_step-IsSnapshot tmax q (some (i, q')) more e ih =
      elim (Bool-cases (leb (key i) (time_key tmax))) [
        | inl now ↦
            let rest = ih i q' e in
            let (same, first) = pq.pop_some q i q' e in
            rw now (record {
              same = Perm.trans (Perm.cons i rest.same) (Perm.symm same);
              sorted = (
                λ j m. first j ((Perm.mem_iff rest.same).0 (mem-append.1 (Or.inl m))),
                rest.sorted,
              );
              due = λ j m. Or.elim le_prop (mem-cons.0 m) (λ p. rw p (leb→le _ _ now)) (rest.due j);
              waiting = rest.waiting;
            })
        | inr not_yet ↦
            let (same, first) = pq.pop_some q i q' e in
            rw not_yet (record {
              same = Perm.refl _;
              sorted = tt;
              due = λ j m. absurd (not-mem-nil m);
              waiting = λ j m.
                  Or.elim le_prop (mem-cons.0 ((Perm.mem_iff same).0 m))
                    (λ p. rw p (not_leb→lt _ _ not_yet))
                    (λ k. omega (arith, first j k, not_leb→lt _ _ not_yet));
            })
      ]

  take_due-IsSnapshot :
      (fuel : ℕ) (tmax : SimTime) (q : Queue)
      → length (items q) ≤ fuel
      → let (ready, q') = take_due pq fuel tmax q in IsSnapshot tmax (items q) ready (items q')
  unfolding take_due
  take_due-IsSnapshot zero tmax q h = record {
    same = Perm.refl _;
    sorted = tt;
    due = λ i m. absurd (not-mem-nil m);
    waiting = λ i m. absurd (nothing_left q i h m);
  }
  take_due-IsSnapshot (suc fuel) tmax q h =
      due_step-IsSnapshot tmax q (pop q) (take_due pq fuel tmax) refl
        (λ i q' e. take_due-IsSnapshot fuel tmax q' (pop-length q i q' e h))

  -- `run_until` takes exactly the items that are due, the earliest first, and leaves the others.
  pub snapshot_until-IsSnapshot :
      (tmax : SimTime) (q : Queue)
      → let (ready, q') = snapshot_until pq tmax q in IsSnapshot tmax (items q) ready (items q')
  unfolding snapshot_until
  snapshot_until-IsSnapshot tmax q = take_due-IsSnapshot (length (items q)) tmax q (omega arith)

  all_step_lem :
      (q : Queue) (o : Option (Item J × Queue)) (more : Queue → Seq (Item J) × Queue)
      → pop q ≡ o
      → ((i : Item J) (q' : Queue)
          → pop q ≡ some (i, q')
          → Perm (more q').0 (items q') × IsSorted (more q').0 × (items (more q').1 ≡ []))
      → let (ready, q') = all_step pq q o more in
        Perm ready (items q) × IsSorted ready × (items q' ≡ [])
  all_step_lem q none more e ih = (rw (pq.pop_none q e) (Perm.refl _), tt, pq.pop_none q e)
  all_step_lem q (some (i, q')) more e ih =
      let (same', sorted, empty) = ih i q' e in
      let (same, first) = pq.pop_some q i q' e in
      (
        Perm.trans (Perm.cons i same') (Perm.symm same),
        (λ j m. first j ((Perm.mem_iff same').0 m), sorted),
        empty,
      )

  take_all_due_lem :
      (fuel : ℕ) (q : Queue)
      → length (items q) ≤ fuel
      → let (ready, q') = take_all_due pq fuel q in
        Perm ready (items q) × IsSorted ready × (items q' ≡ [])
  unfolding take_all_due
  take_all_due_lem zero q h = let e = nil_of_length (items q) h in (rw e (Perm.refl _), tt, e)
    where
      nil_of_length : (xs : Seq (Item J)) → length xs ≤ 0 → xs ≡ []
      nil_of_length [] h = refl
      nil_of_length (x ∷ xs) h = absurd (omega arith)
  take_all_due_lem (suc fuel) q h =
      all_step_lem q (pop q) (take_all_due pq fuel) refl
        (λ i q' e. take_all_due_lem fuel q' (pop-length q i q' e h))

  -- `run` takes every item, the earliest first, and leaves an empty queue.
  pub snapshot_all_lem :
      (q : Queue)
      → let (ready, q') = snapshot_all pq q in
        Perm ready (items q) × IsSorted ready × (items q' ≡ [])
  unfolding snapshot_all
  snapshot_all_lem q = take_all_due_lem (length (items q)) q (omega arith)
