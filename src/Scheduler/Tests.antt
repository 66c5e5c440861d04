-- ===== src/Scheduler/Tests.antt =====
-- A queue of three items.
use open_vbus.Base.{◌-◌, ◌^◌, ℕ, List, [], ◌∷◌}
use open_vbus.Scheduler.{Item, snapshot_until}
use open_vbus.Scheduler.Insertion.{insertion_queue}
use open_vbus.Scheduler.Drain.{IsSnapshot, snapshot_until-IsSnapshot}

abbrev three_items : List (Item ℕ)
three_items =
    record { t = 30; fn = 1 } ∷ record { t = 10; fn = 2 } ∷ record { t = 2 ^ 64 - 1; fn = 3 } ∷ []

snapshot_until-IsSnapshot_example :
    IsSnapshot 20 three_items
      (snapshot_until (insertion_queue ℕ) 20 three_items).0
      (snapshot_until (insertion_queue ℕ) 20 three_items).1
snapshot_until-IsSnapshot_example = snapshot_until-IsSnapshot (insertion_queue ℕ) 20 three_items
