-- ===== src/Gui/Model/Buses/Deletion.antt =====
-- `deleteBus` keeps the invariant, and the loop of `newProject` and `loadProject` ends.
use open_vbus.Base.{
  ℕ, zero, suc, ◌≤◌, ◌≡◌, ◌≢◌, ◌⊎◌, inl, inr, ◌==◌, refl, sym, subst, ap, ◌∙◌, true, false, Option,
  none, some, List, [], ◌∷◌, All, length, if_cases, arith,
}
use open_vbus.Gui.Model.{Bus, Model, Surroundings, find_bus}
use open_vbus.Gui.Model.Invariant.{
  Known, ids_of, IsFit, IsSound, Model-Holds, Holds, Keyed, Keyed-mono,
}
use open_vbus.Gui.Model.Buses.{
  erase_bus, first_id, retired, tell, without_bus, delete_found, delete_bus, delete_all,
  delete_buses, is_empty,
}
use open_vbus.Gui.Model.Buses.Preserved.{tell-Holds, retired-Stays}

-- What `find_bus` gives has the number, and is one of the list.
abbrev Found : ℕ → List Bus → Option Bus → Type 0
Found id bs none = Unit {0}
Found id bs (some b) = (b.id ≡ id) × Known b.id (ids_of bs) × IsFit b

find_bus-Found : (id : ℕ) (bs : List Bus) → All IsFit bs → Found id bs (find_bus id bs)
unfolding find_bus
find_bus-Found id [] h = tt
find_bus-Found id (b ∷ bs) (h, hs) =
    if_cases (Found id (b ∷ bs)) (b.id == id) _ _ (λ e. (ground arith, inl refl, h))
      (λ _. found_later (find_bus id bs) (find_bus-Found id bs hs))
  where
    found_later : (o : Option Bus) → Found id bs o → Found id (b ∷ bs) o
    found_later none f = tt
    found_later (some c) (e, k, g) = (e, inr k, g)

Known-erase_bus :
    (i id : ℕ) (bs : List Bus) → i ≢ id → Known i (ids_of bs) → Known i (ids_of (erase_bus id bs))
unfolding erase_bus
Known-erase_bus i id [] n k = k
Known-erase_bus i id (b ∷ bs) n (inl e) =
    if_cases (λ cs. Known i (ids_of cs)) (b.id == id) bs (b ∷ erase_bus id bs)
      (λ h. absurd (n (ground arith))) (λ _. inl e)
Known-erase_bus i id (b ∷ bs) n (inr k) =
    if_cases (λ cs. Known i (ids_of cs)) (b.id == id) bs (b ∷ erase_bus id bs) (λ _. k)
      (λ _. inr (Known-erase_bus i id bs n k))

All-erase_bus : (id : ℕ) (bs : List Bus) → All IsFit bs → All IsFit (erase_bus id bs)
unfolding erase_bus
All-erase_bus id [] h = tt
All-erase_bus id (b ∷ bs) (h, hs) =
    if_cases (All IsFit) (b.id == id) bs (b ∷ erase_bus id bs) (λ _. hs)
      (λ _. (h, All-erase_bus id bs hs))

pub first_id-Known : (bs : List Bus) → (first_id bs ≡ 0) ⊎ Known (first_id bs) (ids_of bs)
unfolding first_id
first_id-Known [] = inl refl
first_id-Known (b ∷ bs) = inr (inl refl)

find_first : (b : Bus) (bs : List Bus) → find_bus (first_id (b ∷ bs)) (b ∷ bs) ≡ some b
unfolding find_bus first_id
find_first b bs = let e : (b.id == b.id) ≡ true = ground arith in rw e refl

erase_first : (b : Bus) (bs : List Bus) → erase_bus (first_id (b ∷ bs)) (b ∷ bs) ≡ bs
unfolding erase_bus first_id
erase_first b bs = let e : (b.id == b.id) ≡ true = ground arith in rw e refl

module _ {S : Type 0} (gui : Surroundings S) where
  -- The deleted bus is told off with the maps already clear of its number.
  told-Holds :
      (b : Bus) (m : Model S)
      → Known b.id (ids_of m.buses)
      → IsFit b
      → IsSound m
      → Holds m.buses m.selected_bus
          (λ i. Known i (ids_of m.buses) × (i ≢ b.id))
          (λ i. Known i (ids_of m.buses) × (i ≢ b.id))
          (tell gui (retired gui b m))
  told-Holds b m k f s =
      tell-Holds gui m.buses m.selected_bus (λ i. Known i (ids_of m.buses) × (i ≢ b.id))
        (λ i. Known i (ids_of m.buses) × (i ≢ b.id)) (retired gui b m).0 (retired gui b m).1
        (retired-Stays gui m.buses m.selected_bus (λ i. Known i (ids_of m.buses))
          (λ i. Known i (ids_of m.buses)) b m k k f (Model-Holds m s)).held

  without_bus-IsSound :
      (id : ℕ) (m : Model S)
      → length m.log_lines ≤ 1024
      → All IsFit m.buses
      → Keyed (λ i. Known i (ids_of (erase_bus id m.buses))) m.subs
      → Keyed (λ i. Known i (ids_of (erase_bus id m.buses))) m.ifaces
      → IsSound (without_bus gui id m)
  unfolding without_bus
  without_bus-IsSound id m log fits subs ifaces = record {
    log = log;
    fits = All-erase_bus id m.buses fits;
    subs = subs;
    ifaces = ifaces;
    selected = first_id-Known (erase_bus id m.buses);
  }

  delete_found-IsSound :
      (id : ℕ) (o : Option Bus) (m : Model S)
      → Found id m.buses o
      → IsSound m
      → IsSound (delete_found gui id o m)
  unfolding delete_found
  delete_found-IsSound id none m f s = s
  delete_found-IsSound id (some b) m (e, k, f) s =
      let h = told-Holds b m k f s in
      let clear : (i : ℕ)
          → Known i (ids_of m.buses) × (i ≢ b.id)
          → Known i (ids_of (erase_bus id m.buses)) =
        λ i x. Known-erase_bus i id m.buses (λ eq. x.1 (eq ∙ sym e)) x.0 in
      let m' = tell gui (retired gui b m) in
      without_bus-IsSound id m' h.log (subst (All IsFit) (sym h.kept) s.fits)
        (subst (λ cs. Keyed (λ i. Known i (ids_of (erase_bus id cs))) m'.subs) (sym h.kept)
          (Keyed-mono _ _ m'.subs clear h.subs))
        (subst (λ cs. Keyed (λ i. Known i (ids_of (erase_bus id cs))) m'.ifaces) (sym h.kept)
          (Keyed-mono _ _ m'.ifaces clear h.ifaces))

  pub delete_bus-IsSound : (id : ℕ) (m : Model S) → IsSound m → IsSound (delete_bus gui id m)
  unfolding delete_bus
  delete_bus-IsSound id m s =
      delete_found-IsSound id (find_bus id m.buses) m (find_bus-Found id m.buses s.fits) s

  delete_first :
      (m : Model S) (b : Bus) (bs : List Bus)
      → IsSound m
      → m.buses ≡ b ∷ bs
      → (delete_bus gui (first_id m.buses) m).buses ≡ bs
  unfolding delete_bus delete_found without_bus
  delete_first m b bs s e =
      let found : find_bus (first_id m.buses) m.buses ≡ some b =
        subst (λ cs. find_bus (first_id cs) cs ≡ some b) (sym e) (find_first b bs) in
      let all : IsFit b × All IsFit bs = subst (All IsFit) e s.fits in
      let k : Known b.id (ids_of m.buses) =
        subst (λ cs. Known b.id (ids_of cs)) (sym e) (inl refl) in
      rw found (
        ap (erase_bus (first_id m.buses)) (told-Holds b m k all.0 s).kept
        ∙ subst (λ cs. erase_bus (first_id cs) cs ≡ bs) (sym e) (erase_first b bs))

  delete_all-clears :
      (n : ℕ) (m : Model S) (bs : List Bus)
      → IsSound m
      → m.buses ≡ bs
      → length bs ≤ n
      → IsSound (delete_all gui n m) × ((delete_all gui n m).buses ≡ [])
  unfolding delete_all is_empty
  delete_all-clears zero m [] s e h = (s, e)
  delete_all-clears zero m (b ∷ bs) s e h = absurd (omega arith)
  delete_all-clears (suc n) m [] s e h =
      let t : is_empty m.buses ≡ true = ap is_empty e in rw t (s, e)
  delete_all-clears (suc n) m (b ∷ bs) s e h =
      let t : is_empty m.buses ≡ false = ap is_empty e in
      rw t (
        delete_all-clears n (delete_bus gui (first_id m.buses) m) bs
          (delete_bus-IsSound (first_id m.buses) m s) (delete_first m b bs s e) (omega arith))

  -- The loop of `newProject` and `loadProject` ends, and leaves no bus.
  pub delete_buses-clears :
      (m : Model S) → IsSound m → IsSound (delete_buses gui m) × ((delete_buses gui m).buses ≡ [])
  unfolding delete_buses
  delete_buses-clears m s = delete_all-clears (length m.buses) m m.buses s refl (omega arith)
