-- ===== src/Gui/Ring/Tests.antt =====
-- A buffer of two cells.
use open_vbus.Base.{ℕ, ◌≡◌, none, some, [], ◌∷◌, ◌>>=◌, arith}
use open_vbus.Gui.Ring.{init, pushes, for_each}
use open_vbus.Gui.Ring.Order.{for_each_in_order, for_each_wrapped}

for_each_in_order_example :
    (pushes {A = ℕ} (5 ∷ 6 ∷ []) (init 0 2) >>= for_each) ≡ some (5 ∷ 6 ∷ [])
for_each_in_order_example = for_each_in_order 0 2 (5 ∷ 6 ∷ []) (omega arith) (omega arith)

for_each_wrapped_example : (pushes {A = ℕ} (5 ∷ 6 ∷ 7 ∷ []) (init 0 2) >>= for_each) ≡ none
for_each_wrapped_example =
    for_each_wrapped 0 2 (5 ∷ 6 ∷ 7 ∷ []) (omega arith) (omega arith) (ground arith)
