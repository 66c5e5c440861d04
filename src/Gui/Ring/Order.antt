-- ===== src/Gui/Ring/Order.antt =====
-- What `for_each` of `RingBuffer` shows after a run of pushes.
use native.Mathlib.Nat.{mod-eq_of_lt, mod-lt, mod-add-mod, mod_self, add-zero}
use open_vbus.Base.{
  not_leb→lt, ◌≢◌, sym, le→leb, ◌∙◌, lt→ltb, ◌>>=◌, leb, ℕ, zero, suc, ◌+◌, ◌%◌, ◌<◌, ◌≤◌, ◌≡◌,
  refl, ap, ◌||◌, Option, none, some, List, [], ◌∷◌, ◌++◌, arith, ◌==◌, length, get_elem?, set,
  replicate, length-set, length-append, append_assoc, length-replicate, Bool-cases, inl, inr,
}
use open_vbus.Gui.Ring.{RingBuffer, init, push, pushes, reads, for_each}

module _ {ℓ} {A : Type ℓ} where
  abbrev pub IsValid : RingBuffer A → Type 0
  IsValid r = r.head < length r.data_

  get_elem?_middle :
      (xs : List A) (y : A) (zs : List A) → get_elem? (xs ++ y ∷ zs) (length xs) ≡ some y
  get_elem?_middle [] y zs = refl
  get_elem?_middle (x ∷ xs) y zs = get_elem?_middle xs y zs

  get_elem?_lt : (xs : List A) (i : ℕ) → i < length xs → (a : A) × (get_elem? xs i ≡ some a)
  get_elem?_lt [] i h = absurd (omega arith)
  get_elem?_lt (x ∷ xs) zero h = (x, refl)
  get_elem?_lt (x ∷ xs) (suc i) h = get_elem?_lt xs i (omega arith)

  get_elem?_ge : (xs : List A) (i : ℕ) → length xs ≤ i → get_elem? xs i ≡ none
  get_elem?_ge [] i h = refl
  get_elem?_ge (x ∷ xs) zero h = absurd (omega arith)
  get_elem?_ge (x ∷ xs) (suc i) h = get_elem?_ge xs i (omega arith)

  set_middle :
      (xs : List A) (y v : A) (zs : List A) → set (xs ++ y ∷ zs) (length xs) v ≡ xs ++ v ∷ zs
  set_middle [] y v zs = refl
  set_middle (x ∷ xs) y v zs = ap (◌∷◌ x) (set_middle xs y v zs)

  -- Reading on from `pre` shows what follows it.
  reads_segment :
      (xs pre ys rest : List A) (i : ℕ)
      → xs ≡ pre ++ (ys ++ rest)
      → i ≡ length pre
      → reads xs 0 i (length ys) ≡ some ys
  unfolding reads
  reads_segment xs pre [] rest i e h = refl
  reads_segment xs pre (y ∷ ys) rest i e h = rw (
    here,
    reads_segment xs (pre ++ y ∷ []) ys rest (i + 1) (rw append_assoc e)
        (omega (arith, length-append pre (y ∷ []))),
  )
    where
      inside : i < length xs
      inside = omega (arith, ap length e, length-append pre (y ∷ (ys ++ rest)))

      here : get_elem? xs (0 + i % length xs) ≡ some y
      here =
          let at : 0 + i % length xs ≡ length pre = omega (arith, mod-eq_of_lt inside) in
          rw (at, e) (get_elem?_middle pre y (ys ++ rest))

  -- A base above 0 takes the reads past the end of the vector.
  reads_past :
      (xs : List A) (base i k : ℕ)
      → 0 < base
      → base + i ≤ length xs
      → i + k ≡ length xs
      → reads xs base i k ≡ none
  unfolding reads
  reads_past xs base i zero hb hi hk = absurd (omega arith)
  reads_past xs base i (suc k) hb hi hk = elim (Bool-cases (base + i == length xs)) [
    | inl e ↦ rw (at, get_elem?_ge xs (base + i) (ground arith))
    | inr e ↦
        rw (at, reads_past xs base (i + 1) k hb (ground arith) (omega arith))
          (none_after (get_elem? xs (base + i)))
  ]
    where
      at : base + i % length xs ≡ base + i
      at = omega (arith, mod-eq_of_lt {n = i} {m = length xs} (omega arith))

      none_after : (o : Option A) → (o >>= λ v. none >>= λ vs. some (v ∷ vs)) ≡ none
      none_after none = refl
      none_after (some a) = refl

-- A buffer of `cap` cells after `c` pushes.
pub record Tracks {ℓ} {A : Type ℓ} (cap c : ℕ) (r : RingBuffer A) : Type ℓ where
  pub room : 0 < cap
  pub size : length r.data_ ≡ cap
  pub at : r.head ≡ c % cap
  pub wrapped : r.full ≡ leb cap c

next_wrapped : (cap c : ℕ) → 0 < cap → ((c % cap + 1) % cap == 0 || leb cap c) ≡ leb cap (c + 1)
next_wrapped cap c h =
    ground (arith, mod-add-mod c cap 1, mod-eq_of_lt {n = c + 1} {m = cap}, mod_self cap)

module _ {ℓ} {A : Type ℓ} where
  pub init-Tracks : (d : A) (cap : ℕ) → 0 < cap → Tracks cap 0 (init d cap)
  unfolding init
  init-Tracks d cap h = record {
    room = h;
    size = length-replicate cap d;
    at = omega (arith, mod-eq_of_lt h);
    wrapped = ground arith;
  }

  push-Tracks :
      (v : A) {cap c : ℕ} {r : RingBuffer A}
      → Tracks cap c r
      → (r' : RingBuffer A) × (push v r ≡ some r')
        × Tracks cap (c + 1) r'
        × (r'.data_ ≡ set r.data_ r.head v)
  unfolding push
  push-Tracks v {cap} {c} {r} t =
      let inside : r.head < length r.data_ = omega (arith, t.at, t.size, mod-lt c t.room) in
      let next : (r.head + 1) % length r.data_ ≡ (c + 1) % cap =
        rw (t.at, t.size) (mod-add-mod c cap 1) in
      (
        record {
          data_ = set r.data_ r.head v;
          head = (r.head + 1) % length r.data_;
          full = (r.head + 1) % length r.data_ == 0 || r.full;
        },
        rw (lt→ltb _ _ inside),
        record {
          room = t.room;
          size = length-set r.data_ r.head v ∙ t.size;
          at = next;
          wrapped = rw (t.at, t.size, t.wrapped) (next_wrapped cap c t.room);
        },
        refl,
      )

  -- Pushes never fault on a buffer with at least one cell.
  pub pushes-Tracks :
      (vs : List A) {cap c : ℕ} {r : RingBuffer A}
      → Tracks cap c r
      → (r' : RingBuffer A) × (pushes vs r ≡ some r') × Tracks cap (c + length vs) r'
  unfolding pushes
  pushes-Tracks [] {cap} {c} {r} t = (r, refl, rw add-zero t)
  pushes-Tracks (v ∷ vs) {cap} {c} {r} t =
      let (r1, e1, t1, _) = push-Tracks v t in
      let (r2, e2, t2) = pushes-Tracks vs t1 in
      let shift : c + 1 + length vs ≡ c + suc (length vs) = omega arith in
      (r2, rw e1 e2, rw shift at t2)

  -- Until the buffer is full, its vector begins with what was pushed.
  pushes_fill :
      (vs : List A) {cap : ℕ} {r r' : RingBuffer A} (pre rest : List A)
      → Tracks cap (length pre) r
      → r.data_ ≡ pre ++ rest
      → length pre + length vs ≤ cap
      → pushes vs r ≡ some r'
      → (tail : List A) × (r'.data_ ≡ pre ++ (vs ++ tail))
  unfolding pushes
  pushes_fill [] {cap} {r} {r'} pre rest t e h p = (rest, ground arith)
  pushes_fill (v ∷ vs) {cap} {r} {r'} pre [] t e h p =
      absurd (omega (arith, ap length e, length-append pre [], t.size))
  pushes_fill (v ∷ vs) {cap} {r} {r'} pre (x ∷ rest) t e h p =
      let (r1, e1, t1, w) = push-Tracks v t in
      let at : r.head ≡ length pre =
        omega (arith, t.at, mod-eq_of_lt {n = length pre} {m = cap} (omega arith)) in
      let len : length (pre ++ v ∷ []) ≡ length pre + 1 =
        omega (arith, length-append pre (v ∷ [])) in
      let d1 : r1.data_ ≡ (pre ++ v ∷ []) ++ rest =
        w ∙ rw (at, e) (set_middle pre x v rest ∙ sym (append_assoc pre (v ∷ []) rest)) in
      let (tail, q) =
        pushes_fill vs {cap = cap} (pre ++ v ∷ []) rest (rw len t1) d1 (omega (arith, len))
          (rw e1 at p) in
      (tail, q ∙ append_assoc pre (v ∷ []) (vs ++ tail))

  fresh_pushes :
      (d : A) (cap : ℕ) (vs : List A)
      → 0 < cap
      → (r : RingBuffer A) × (pushes vs (init d cap) ≡ some r) × Tracks cap (length vs) r
  fresh_pushes d cap vs h =
      let (r, e, t) = pushes-Tracks vs (init-Tracks d cap h) in
      let c : 0 + length vs ≡ length vs = omega arith in (r, e, rw c at t)

  for_each_filled :
      (r : RingBuffer A) (cap : ℕ) (vs tail : List A)
      → Tracks cap (length vs) r
      → r.data_ ≡ vs ++ tail
      → length vs ≤ cap
      → for_each r ≡ some vs
  unfolding for_each
  for_each_filled r cap vs tail t q k = elim (Bool-cases (leb cap (length vs))) [
    | inl e ↦
        let all : length vs ≡ cap = ground arith in
        let at : r.head ≡ 0 = omega (arith, t.at, mod_self cap, ap (λ (n : ℕ). n % cap) all) in
        let n : length r.data_ ≡ length vs = omega (arith, t.size) in
        rw (t.wrapped, e, at, n) (reads_segment r.data_ [] vs tail 0 q refl)
    | inr e ↦
        let at : r.head ≡ length vs = omega (arith, t.at, mod-eq_of_lt (not_leb→lt _ _ e)) in
        rw (t.wrapped, e, at) (reads_segment r.data_ [] vs tail 0 q refl)
  ]

  -- A buffer of `cap` cells shows its first `cap` pushes in the order in which they came.
  pub for_each_in_order :
      (d : A) (cap : ℕ) (vs : List A)
      → 0 < cap
      → length vs ≤ cap
      → (pushes vs (init d cap) >>= for_each) ≡ some vs
  for_each_in_order d cap vs h k =
      let (r, e, t) = fresh_pushes d cap vs h in
      let (tail, q) =
        pushes_fill vs [] (replicate cap d) (init-Tracks d cap h) (unfold init in refl)
          (omega arith) e in
      rw e (for_each_filled r cap vs tail t q k)

  -- After more than `cap` pushes, unless they come to a multiple of `cap`, the traversal reads past
  -- the end of the vector.
  pub for_each_wrapped :
      (d : A) (cap : ℕ) (vs : List A)
      → 0 < cap
      → cap < length vs
      → length vs % cap ≢ 0
      → (pushes vs (init d cap) >>= for_each) ≡ none
  unfolding for_each
  for_each_wrapped d cap vs h k m =
      let (r, e, t) = fresh_pushes d cap vs h in
      rw (e, t.wrapped, le→leb cap (length vs) (omega arith))
        (reads_past r.data_ r.head 0 (length r.data_) (omega (arith, t.at))
          (omega (arith, t.at, t.size, mod-lt (length vs) h)) (omega arith))
