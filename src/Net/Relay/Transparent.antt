-- ===== src/Net/Relay/Transparent.antt =====
-- What a relay passes on, and what it records.
use open_vbus.Base.{
  inr, if_cases, inl, ◌⊎◌, ℕ, zero, suc, ◌≤◌, ◌<◌, ◌≡◌, refl, List, [], ◌∷◌, ◌++◌, Bytes, length,
  take_all, All, arith,
}
use open_vbus.Frame.{tcp}
use open_vbus.Net.{tcp_frame}
use open_vbus.Net.Relay.{Round, RelayEvent, passed_on, recorded, relay_round, relay_half}

-- The bytes that came out on the other side, and those in the recorded frames.
abbrev pub delivered : List RelayEvent → Bytes
delivered [] = []
delivered (passed_on bs ∷ es) = bs ++ delivered es
delivered (recorded f ∷ es) = delivered es

abbrev pub captured : List RelayEvent → Bytes
captured [] = []
captured (passed_on bs ∷ es) = captured es
captured (recorded f ∷ es) = f.payload ++ captured es

-- Every recorded frame is a TCP frame of its direction, and not empty.
abbrev pub IsLabelled : ℕ → RelayEvent → Type 0
IsLabelled direction (passed_on bs) = Unit {0}
IsLabelled direction (recorded f) = (f.proto ≡ tcp) × (f.tag ≡ direction) × (0 < length f.payload)

-- `send` takes all that it is given, or fails.
abbrev pub IsWhole : Round → Type 0
IsWhole r = (r.sent ≡ 0) ⊎ (length r.received ≤ r.sent)

abbrev IsTrue : ℕ → List RelayEvent → Type 0
IsTrue direction es = (captured es ≡ delivered es) × All (IsLabelled direction) es

relay_round-IsTrue :
    (direction now sent : ℕ) (bs : Bytes) (rest : List RelayEvent)
    → (sent ≡ 0) ⊎ (length bs ≤ sent)
    → IsTrue direction rest
    → IsTrue direction (relay_round direction now sent bs rest)
unfolding relay_round tcp_frame
relay_round-IsTrue direction now sent [] rest w h = (refl, tt)
relay_round-IsTrue direction now zero (b ∷ bs) rest w h = (refl, tt)
relay_round-IsTrue direction now (suc k) (b ∷ bs) rest (inl e) h = absurd (omega arith)
relay_round-IsTrue direction now (suc k) (b ∷ bs) rest (inr le) (same, labelled) =
    (rw (take_all k bs (omega arith), same) refl, (tt, ((refl, refl, omega arith), labelled)))

-- Where no `send` is cut short, the recorded frames of a relay hold exactly the bytes that came out on
-- the other side, in their order, and each frame is labelled with the direction.
pub relay_transparent :
    (direction : ℕ) (rs : List Round)
    → All IsWhole rs
    → (captured (relay_half direction rs) ≡ delivered (relay_half direction rs))
      × All (IsLabelled direction) (relay_half direction rs)
unfolding relay_half
relay_transparent direction [] h = (refl, tt)
relay_transparent direction (r ∷ rs) (h, hs) =
    if_cases (IsTrue direction) r.running _ _
      (λ _.
        relay_round-IsTrue direction r.now r.sent r.received _ h
          (relay_transparent direction rs hs))
      (λ _. (refl, tt))
