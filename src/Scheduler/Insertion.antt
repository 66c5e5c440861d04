-- ===== src/Scheduler/Insertion.antt =====
-- A queue that keeps the promises of `std::priority_queue`: the items newest first, the earliest
-- found by a scan. Of several items with one time it gives the oldest.
use mathlib.Core.List.{Mem, mem-cons, not-mem-nil}
use mathlib.Core.List.Perm
use mathlib.Core.Logic.Or
use native.Mathlib.Bridge.{le_prop}
use open_vbus.Base.{
  ◌≤◌, ◌≡◌, refl, Option, none, some, List, [], ◌∷◌, Perm, ltb, arith, Bool-cases, inl, inr,
  if◌then◌else◌, ltb→lt,
}
use open_vbus.Scheduler.{Item, key, PriorityQueue}

module _ {J : Type 0} where
  -- The earliest of `i` and the list, and the others.
  unfoldable pub earliest : Item J → List (Item J) → Item J × List (Item J)
  earliest i [] = (i, [])
  earliest i (j ∷ js) =
      let sooner = if ltb (key i) (key j) then i else j in
      let other = if ltb (key i) (key j) then j else i in
      let found = earliest sooner js in (found.0, other ∷ found.1)

  unfoldable pub pop_list : List (Item J) → Option (Item J × List (Item J))
  pop_list [] = none
  pop_list (i ∷ is) = some (earliest i is)

  earliest-perm :
      (i : Item J) (js : List (Item J)) → Perm (i ∷ js) ((earliest i js).0 ∷ (earliest i js).1)
  unfolding earliest
  earliest-perm i [] = Perm.refl _
  earliest-perm i (j ∷ js) = elim (Bool-cases (ltb (key i) (key j))) [
    | inl e ↦ rw e (
        Perm.trans (Perm.swap j i js)
          (Perm.trans (Perm.cons j (earliest-perm i js)) (Perm.swap _ _ _)))
    | inr e ↦ rw e (Perm.trans (Perm.cons i (earliest-perm j js)) (Perm.swap _ _ _))
  ]

  earliest-le :
      (i : Item J) (js : List (Item J))
      → (key (earliest i js).0 ≤ key i)
        × ((j : Item J) → Mem j (earliest i js).1 → key (earliest i js).0 ≤ key j)
  unfolding earliest
  earliest-le i [] = (omega arith, λ j m. absurd (not-mem-nil m))
  earliest-le i (j ∷ js) = elim (Bool-cases (ltb (key i) (key j))) [
    | inl e ↦
        let (a, b) = earliest-le i js in
        rw e (
          a,
          λ k m. Or.elim le_prop (mem-cons.0 m) (λ p. rw p (omega (arith, a, ltb→lt _ _ e))) (b k),
        )
    | inr e ↦
        let (a, b) = earliest-le j js in
        let le : key j ≤ key i = ground arith in
        rw e (
          omega (arith, a, le),
          λ k m. Or.elim le_prop (mem-cons.0 m) (λ p. rw p (omega (arith, a, le))) (b k),
        )
  ]

  pub pop_list-none : (q : List (Item J)) → pop_list q ≡ none → q ≡ []
  unfolding pop_list
  pop_list-none [] e = refl
  pop_list-none (i ∷ is) e = cc

  pub pop_list-some :
      (q : List (Item J)) (i : Item J) (q' : List (Item J))
      → pop_list q ≡ some (i, q')
      → Perm q (i ∷ q') × ((j : Item J) → Mem j q' → key i ≤ key j)
  unfolding pop_list
  pop_list-some [] i q' e = cc
  pop_list-some (j ∷ js) i q' e =
      let first : (earliest j js).0 ≡ i = cc in
      let others : (earliest j js).1 ≡ q' = cc in
      (
        rw (← first, ← others) (earliest-perm j js),
        λ k m. rw (← first) ((earliest-le j js).1 k (rw others m)),
      )

-- the queue that the daemon's model runs on
abbrev pub insertion_queue : (J : Type 0) → PriorityQueue J
insertion_queue J = record {
  Queue = List (Item J);
  empty = [];
  push = ◌∷◌;
  pop = pop_list;
  items = λ q. q;
  items-empty = refl;
  items-push = λ i q. Perm.refl _;
  pop_none = pop_list-none;
  pop_some = pop_list-some;
}
