-- ===== src/Io/Streams.antt =====
-- What the reads and writes of `Io` do to a stream that has not failed.
use open_vbus.Base.{
  refl, ap₂, le→not_ltb, ◌+◌, take, leb, sym, ◌∙◌, ap, ltb, ltb→lt, lt→ltb, ◌-◌, take_within,
  take_beyond, take_all, Bool-cases, inl, inr, leb→le, not_leb→lt, ℕ, ◌<◌, ◌≤◌, ◌≡◌, true, false,
  none, some, [], ◌++◌, arith, Bytes, length, length-append, take_append, drop_append, le→leb,
  lt→not_leb,
}
use open_vbus.Io.{OutStream, read, write}

-- Exactly what stands in front is read.
pub read_front :
    (n : ℕ) (bs more : Bytes)
    → length bs ≡ n
    → read n (record { failed = false; rest = bs ++ more })
      ≡ (some bs, record { failed = false; rest = more })
unfolding read
read_front n bs more h = rw (
  le→leb n (length (bs ++ more)) (omega (arith, length-append bs more)),
  take_append n bs more h,
  drop_append n bs more h,
)

-- A stream that ends too early fails.
pub read_short :
    (n : ℕ) (bs : Bytes)
    → length bs < n
    → read n (record { failed = false; rest = bs }) ≡ (none, record { failed = true; rest = [] })
unfolding read
read_short n bs h = rw (lt→not_leb n (length bs) h)

-- A stream on a device of `n` bytes to which `total` has been written, as far as it went.
pub record Logged (n : ℕ) (total : Bytes) (s : OutStream) : Type 0 where
  pub is_open : s.is_open ≡ true
  pub written : s.written ≡ take n total
  pub failed : s.failed ≡ ltb n (length total)
  pub room : s.room ≡ n - length total

-- What is written after a failure changes nothing that is kept.
pub Logged-failed :
    {n : ℕ} {total : Bytes} {s : OutStream} (bs : Bytes)
    → Logged n total s
    → s.failed ≡ true
    → Logged n (total ++ bs) s
Logged-failed {n} {total} {s} bs h e =
    let over : n < length total = ltb→lt _ _ (sym h.failed ∙ e) in
    record {
      is_open = h.is_open;
      written = h.written ∙ sym (take_within n total bs (omega arith));
      failed = e ∙ sym (lt→ltb _ _ (omega (arith, length-append total bs)));
      room = omega (arith, h.room, length-append total bs);
    }

pub write-Logged :
    {n : ℕ} {total : Bytes} {s : OutStream} (bs : Bytes)
    → Logged n total s
    → Logged n (total ++ bs) (write bs s)
unfolding write
write-Logged {n} {total} {s} bs h = elim (Bool-cases s.failed) [
  | inl bad ↦ rw bad (record {
    is_open = h.is_open;
    written = (Logged-failed bs h bad).written;
    failed = sym bad ∙ (Logged-failed bs h bad).failed;
    room = (Logged-failed bs h bad).room;
  })
  | inr good ↦
      let under : length total ≤ n = ground (arith, h.failed) in
      rw (good, h.is_open)
        (elim (Bool-cases (leb (length bs) s.room)) [
          | inl fits ↦
              let le : length total + length bs ≤ n = omega (arith, leb→le _ _ fits, h.room) in
              rw fits (record {
                is_open = refl;
                written =
                    ap (λ w. w ++ bs) (h.written ∙ take_all n total under)
                    ∙ sym (take_all n (total ++ bs) (omega (arith, length-append total bs)));
                failed = sym (le→not_ltb _ _ (omega (arith, length-append total bs)));
                room = omega (arith, h.room, length-append total bs);
              })
          | inr full ↦
              let gt : n < length total + length bs = omega (arith, not_leb→lt _ _ full, h.room) in
              rw full (record {
                is_open = refl;
                written =
                    ap₂ (λ w k. w ++ take k bs) (h.written ∙ take_all n total under) h.room
                    ∙ sym (take_beyond n total bs under);
                failed = sym (lt→ltb _ _ (omega (arith, length-append total bs)));
                room = omega (arith, length-append total bs);
              })
        ])
]
