-- ===== src/Gui/Ring.antt =====
-- vbus-gui/src/util/ringbuffer.h: `RingBuffer<T>`. An access outside the vector is a fault, `none`.
pub mod Order
mod Tests
use open_vbus.Base.{
  ◌>>=◌, ℕ, zero, suc, ◌+◌, ◌%◌, Bool, true, false, ◌||◌, Option, none, some, List, [], ◌∷◌, ltb,
  ◌==◌, if◌then◌else◌, length, get_elem?, set, replicate,
}

pub record RingBuffer {ℓ} (A : Type ℓ) : Type ℓ where
  pub data_ : List A
  pub head : ℕ
  pub full : Bool

module _ {ℓ} {A : Type ℓ} where
  -- `RingBuffer(cap)`: the vector holds `cap` default values.
  unfoldable pub init : A → ℕ → RingBuffer A
  init default cap = record { data_ = replicate cap default; head = 0; full = false }

  unfoldable pub push : A → RingBuffer A → Option (RingBuffer A)
  push v r =
      let size = length r.data_ in
      let head' = (r.head + 1) % size in
      if ltb r.head size
      then some (record { data_ = set r.data_ r.head v; head = head'; full = head' == 0 || r.full })
      else none

  unfoldable pub pushes : List A → RingBuffer A → Option (RingBuffer A)
  unfolding push
  pushes [] r = some r
  pushes (v ∷ vs) r = do r' ← push v r; pushes vs r'

  -- `data[base + i % size]` for `i`, `i + 1`, …, `k` of them, in the order in which `f` sees them
  unfoldable pub reads : List A → ℕ → ℕ → ℕ → Option (List A)
  reads xs base i zero = some []
  reads xs base i (suc k) =
      let rest = reads xs base (i + 1) k in
      do v ← get_elem? xs (base + i % length xs); vs ← rest; some (v ∷ vs)

  unfoldable pub for_each : RingBuffer A → Option (List A)
  unfolding reads
  for_each r =
      let n = if r.full then length r.data_ else r.head in
      reads r.data_ (if r.full then r.head else 0) 0 n
