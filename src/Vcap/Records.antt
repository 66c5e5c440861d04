-- ===== src/Vcap/Records.antt =====
-- One record of recorder.cpp: what `Recorder::Write` stores and what `Replayer::Next` reads.
use open_vbus.Base.{
  leb→le, take_beyond, ◌*◌, ℕ, ◌+◌, ◌-◌, ◌%◌, ◌^◌, ◌<◌, ◌≤◌, ◌≡◌, refl, ap, ◌∙◌, true, false, none,
  some, [], ◌∷◌, ◌++◌, arith, append_assoc, Bytes, length, take, leb, ◌==◌, Bool-cases, inl, inr,
  length-append, length-take, of_le-le_bytes_4, of_le-le_bytes_8,
}
use open_vbus.Io.Streams.{read_front, read_short}
use open_vbus.Frame.{Frame}
use open_vbus.Vcap.{
  VCapRec, rec_bytes, rec_of_bytes, rec_of_frame, next, with_payload, with_header, read_payload,
}

-- What the fields of a C++ `Frame` can hold, with a payload whose size fits in `Len`.
pub record IsStorable (f : Frame) : Type 0 where
  pub proto : f.proto < 2 ^ 8
  pub tag : f.tag < 2 ^ 64
  pub ts_ns : f.ts_ns < 2 ^ 64
  pub len : length f.payload < 2 ^ 32

-- The bytes of one record in a file or a message.
abbrev pub stored : Frame → Bytes
stored f = rec_bytes (rec_of_frame f) ++ f.payload

pub length-rec_bytes : (r : VCapRec) → length (rec_bytes r) ≡ 32
unfolding rec_bytes
length-rec_bytes r = refl

pub rec_of_bytes-rec_bytes :
    (f : Frame) → IsStorable f → rec_of_bytes (rec_bytes (rec_of_frame f)) ≡ rec_of_frame f
unfolding rec_of_bytes rec_bytes rec_of_frame
rec_of_bytes-rec_bytes f h = λ i. record {
  proto = proto i;
  flags = 0;
  reserved = 0;
  tag = of_le-le_bytes_8 f.tag h.tag i;
  ts_ns = of_le-le_bytes_8 f.ts_ns h.ts_ns i;
  len = of_le-le_bytes_4 (length f.payload % 2 ^ 32) (omega arith) i;
}
  where
    proto : f.proto % 256 + 256 * 0 ≡ f.proto
    proto = omega (arith, h.proto)

pub length-stored : (f : Frame) → length (stored f) ≡ 32 + length f.payload
length-stored f =
    omega (
      arith,
      length-append (rec_bytes (rec_of_frame f)) f.payload,
      length-rec_bytes (rec_of_frame f),
    )

-- Behind a whole record header `next` goes on with the payload.
next-rec_bytes :
    (f : Frame) (rest : Bytes)
    → IsStorable f
    → next (record { failed = false; rest = rec_bytes (rec_of_frame f) ++ rest })
      ≡ with_payload
          (rec_of_frame f)
          (read_payload (length f.payload % 2 ^ 32) (record { failed = false; rest = rest }))
unfolding next rec_of_frame
next-rec_bytes f rest h =
    ap with_header
      (read_front 32 (rec_bytes (rec_of_frame f)) rest (length-rec_bytes (rec_of_frame f)))
    ∙ rw (rec_of_bytes-rec_bytes f h)

-- The payload is found whole, or not at all.
payload_front :
    (n : ℕ) (bs more : Bytes)
    → length bs ≡ n
    → read_payload n (record { failed = false; rest = bs ++ more })
      ≡ (some bs, record { failed = false; rest = more })
payload_front n [] more h = let e : n ≡ 0 = omega arith in rw e
payload_front n (b ∷ bs) more h =
    let e : (n == 0) ≡ false = ground arith in rw e (read_front n (b ∷ bs) more h)

payload_short :
    (n : ℕ) (bs : Bytes)
    → length bs < n
    → read_payload n (record { failed = false; rest = bs })
      ≡ (none, record { failed = true; rest = [] })
payload_short n bs h = let e : (n == 0) ≡ false = ground arith in rw e (read_short n bs h)

-- A record in front of anything is read back, and the stream stands behind it.
pub next-stored :
    (f : Frame) (more : Bytes)
    → IsStorable f
    → next (record { failed = false; rest = stored f ++ more })
      ≡ (some f, record { failed = false; rest = more })
unfolding with_payload rec_of_frame
next-stored f more h = rw (append_assoc (rec_bytes (rec_of_frame f)) f.payload more) (
    next-rec_bytes f (f.payload ++ more) h
    ∙ ap (with_payload (rec_of_frame f))
        (payload_front (length f.payload % 2 ^ 32) f.payload more (omega arith)))

-- A record that is cut short is not delivered.
pub next-short :
    (f : Frame) (n : ℕ)
    → IsStorable f
    → n < length (stored f)
    → (next (record { failed = false; rest = take n (stored f) })).0 ≡ none
unfolding next with_payload
next-short f n h k = elim (Bool-cases (leb 32 n)) [
  | inl e ↦ rw (take_beyond n hdr f.payload (ground (arith, length-rec_bytes (rec_of_frame f)))) (
      ap (λ p. p.0)
        (next-rec_bytes f (take (n - length hdr) f.payload) h
          ∙ ap (with_payload (rec_of_frame f)) (
              payload_short (length f.payload % 2 ^ 32) (take (n - length hdr) f.payload)
                (short (leb→le 32 n e)))))
  | inr e ↦
      ap (λ p. (with_header p).0)
        (read_short 32 (take n (stored f)) (ground (arith, length-take n (stored f))))
]
  where
    hdr : Bytes
    hdr = rec_bytes (rec_of_frame f)

    short : 32 ≤ n → length (take (n - length hdr) f.payload) < length f.payload % 2 ^ 32
    short = omega (
      arith,
      length-take (n - length hdr) f.payload,
      length-rec_bytes (rec_of_frame f),
      length-stored f,
    )
