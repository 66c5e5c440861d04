-- ===== src/Daemon/Sync/Origin.antt =====
-- The common origin of the streams of `replay-sync`.
use open_vbus.Base.{
  ◌<◌, subst, ◌==◌, ◌≤◌, ◌≡◌, ◌⊎◌, inl, inr, refl, ap, ◌∙◌, sym, Bool, true, false, ◌&&◌, Option,
  none, some, List, [], ◌∷◌, All, ltb, Option-cases, Bool-cases, Text, arith,
}
use open_vbus.Scheduler.{SimTime}
use open_vbus.Daemon.State.{Os}
use open_vbus.Daemon.Sync.{StreamDesc, peek, earlier, Peeked, refused, first_time, peek_all}

-- A first time that is not before `t`; 0 does not count, and the file must open.
abbrev pub NotBefore : SimTime → Option (Option SimTime) → Type 0
NotBefore t none = ⊥
NotBefore t (some none) = Unit {0}
NotBefore t (some (some s)) = (s ≡ 0) ⊎ (t ≤ s)

module _ (os : Os) where
  -- `t` is the first time of one of the files.
  abbrev pub Attained : SimTime → List StreamDesc → Type 0
  Attained t [] = ⊥
  Attained t (d ∷ ds) = (peek os d.file ≡ some (some t)) ⊎ Attained t ds

  abbrev pub Unopened : Text → List StreamDesc → Type 0
  Unopened file [] = ⊥
  Unopened file (d ∷ ds) = ((d.file ≡ file) × (peek os d.file ≡ none)) ⊎ Unopened file ds

  -- What Phase 1 finds, from a time that is later than all: the earliest, or a file that does not open.
  abbrev pub IsOrigin : List StreamDesc → SimTime → Peeked → Type 0
  IsOrigin ds t₀ (refused file) = Unopened file ds
  IsOrigin ds t₀ (first_time t) =
      (t ≤ t₀) × All (λ d. NotBefore t (peek os d.file)) ds × ((t ≡ t₀) ⊎ (Attained t ds × (0 < t)))

  -- `earlier` gives the smaller of the two times that count.
  earlier_cases :
      (s t : SimTime)
      → (earlier (some s) t ≤ t)
        × ((s ≡ 0) ⊎ (earlier (some s) t ≤ s))
        × ((earlier (some s) t ≡ t) ⊎ ((earlier (some s) t ≡ s) × (0 < s)))
  unfolding earlier
  earlier_cases s t = elim (Bool-cases (ltb 0 s && ltb s t)) [
    | inl e ↦ rw e (ground arith, inr (omega arith), inr (refl, ground arith))
    | inr e ↦ rw e (omega arith, late (s == 0) refl e, inl refl)
  ]
    where
      late : (b : Bool) → (s == 0) ≡ b → (ltb 0 s && ltb s t) ≡ false → (s ≡ 0) ⊎ (t ≤ s)
      late true z e = inl (ground arith)
      late false z e = inr (ground arith)

  refused_next :
      (d : StreamDesc) (ds : List StreamDesc) (t : SimTime)
      → peek os d.file ≡ none
      → peek_all os (d ∷ ds) t ≡ refused d.file
  unfolding peek_all
  refused_next d ds t e = rw (e, peek_all)

  peeked_next :
      (d : StreamDesc) (ds : List StreamDesc) (t : SimTime) (o : Option SimTime)
      → peek os d.file ≡ some o
      → peek_all os (d ∷ ds) t ≡ peek_all os ds (earlier o t)
  unfolding peek_all
  peeked_next d ds t o e = rw (e, peek_all)

  -- One file more.
  grown :
      (d : StreamDesc) (ds : List StreamDesc) (t₀ : SimTime) (o : Option SimTime) (p : Peeked)
      → peek os d.file ≡ some o
      → IsOrigin ds (earlier o t₀) p
      → IsOrigin (d ∷ ds) t₀ p
  unfolding earlier
  grown d ds t₀ o (refused file) e h = inr h
  grown d ds t₀ none (first_time t) e (le, all, hit) = (
    le,
    (subst (NotBefore t) (sym e) tt, all),
    elim hit [ inl same ↦ inl same | inr (k, pos) ↦ inr (inr k, pos) ],
  )
  grown d ds t₀ (some s) (first_time t) e (le, all, hit) =
      let (not_later, not_before, which) = earlier_cases s t₀ in
      (
        omega (arith, not_later, le),
        (subst (NotBefore t) (sym e) (bounded not_before), all),
        elim hit [
          | inl same ↦ elim which [
            | inl old ↦ inl (same ∙ old)
            | inr (new, pos) ↦
                let here = same ∙ new in
                inr (inl (e ∙ ap (λ x. some (some x)) (sym here)), omega (arith, here, pos))
          ]
          | inr (k, pos) ↦ inr (inr k, pos)
        ],
      )
    where
      bounded : (s ≡ 0) ⊎ (earlier (some s) t₀ ≤ s) → (s ≡ 0) ⊎ (t ≤ s)
      bounded (inl z) = inl z
      bounded (inr b) = inr (omega (arith, b, le))

  -- Phase 1 of `replay-sync` finds the earliest time that is not 0 among the times of the files' first
  -- frames, or a file of the command that does not open: a time that it finds is not after the time
  -- that it starts from, and not after any first time that is not 0; and it is that start, or one of
  -- these first times and not 0. A file that it refuses is one of the list that does not open.
  pub peek_all-IsOrigin : (ds : List StreamDesc) (t₀ : SimTime) → IsOrigin ds t₀ (peek_all os ds t₀)
  unfolding peek_all
  peek_all-IsOrigin [] t₀ = (omega arith, tt, inl refl)
  peek_all-IsOrigin (d ∷ ds) t₀ = elim (Option-cases (peek os d.file)) [
    | inl e ↦ subst (IsOrigin (d ∷ ds) t₀) (sym (refused_next d ds t₀ e)) (inl (refl, e))
    | inr (o, e) ↦
        subst (IsOrigin (d ∷ ds) t₀) (sym (peeked_next d ds t₀ o e))
          (grown d ds t₀ o (peek_all os ds (earlier o t₀)) e (peek_all-IsOrigin ds (earlier o t₀)))
  ]
