-- ===== src/Vcap/RoundTrip.antt =====
-- recorder.cpp from end to end: what a replay of a recorded file delivers, the file whole, cut short
-- or written to a full device.
use open_vbus.Io.Streams.{write-Logged, Logged-failed, read_short, Logged, read_front}
use open_vbus.Base.{
  le→not_ltb, take_all, subst, le→leb, sym, ◌==◌, append_assoc, append-nil, text_eq, length-take,
  true, ◌∙◌, Bool, not_leb→lt, ℕ, zero, suc, ◌+◌, ◌-◌, ◌<◌, ◌≤◌, ◌≡◌, refl, ap, false, Option, none,
  some, List, [], ◌∷◌, ◌++◌, arith, Bytes, length, take, All, leb, Bool-cases, inl, inr,
  length-append, leb→le, take_beyond, take_within,
}
use open_vbus.Io
use open_vbus.Io.{InStream, OutStream}
use open_vbus.Frame.{Frame}
use open_vbus.Vcap.{
  new_recorder, open_recorder, rec_bytes, with_file_header, file_header, rec_of_frame, header_bytes,
  Recorder, write_frame, open_replayer, next, drain, drain_after,
}
use open_vbus.Vcap.Records.{IsStorable, stored, next-stored, next-short, length-stored}

-- The records of a file, one after the other.
abbrev pub body : List Frame → Bytes
body [] = []
body (f ∷ fs) = stored f ++ body fs

-- One list is the front of another.
abbrev pub IsFront : List Frame → List Frame → Type 0
IsFront [] fs = Unit
IsFront (g ∷ gs) [] = ⊥
IsFront (g ∷ gs) (f ∷ fs) = (g ≡ f) × IsFront gs fs

-- `for (auto &f : frames) recorder.Write(f);`
unfoldable pub record_all : List Frame → Recorder → Recorder
record_all [] r = r
record_all (f ∷ fs) r = record_all fs (write_frame f r).1

-- The replay of a file: `Open`, then `Next` until it answers false. A file of `n` bytes has fewer
-- than `n` records.
replay_opened : Bool × InStream → Option (List Frame)
replay_opened (false, s) = some []
replay_opened (true, s) = drain (length s.rest + 1) s

unfoldable pub replay_file : Bytes → Option (List Frame)
unfolding replay_opened
replay_file bs = replay_opened (open_replayer (some bs))

stop_after :
    (p : Option Frame × InStream) (more : InStream → Option (List Frame))
    → p.0 ≡ none
    → drain_after p more ≡ some []
stop_after (none, s) more e = refl
stop_after (some f, s) more e = cc

next_end : (next (record { failed = false; rest = [] })).0 ≡ none
unfolding next Io.read
next_end = refl

-- A cut body yields the frames whose records are whole.
drain_cut :
    (fs : List Frame) (n fuel : ℕ)
    → All IsStorable fs
    → length (take n (body fs)) < fuel
    → (gs : List Frame) × (drain fuel (record { failed = false; rest = take n (body fs) })
        ≡ some gs)
      × IsFront gs fs
      × (length (body fs) ≤ n → gs ≡ fs)
unfolding drain
drain_cut fs n zero h k = absurd (omega arith)
drain_cut [] zero (suc fuel) h k = ([], stop_after _ _ next_end, tt, λ _. refl)
drain_cut [] (suc n) (suc fuel) h k = ([], stop_after _ _ next_end, tt, λ _. refl)
drain_cut (f ∷ fs) n (suc fuel) h k = elim (Bool-cases (leb (length (stored f)) n)) [
  | inl e ↦
      let m = n - length (stored f) in
      let cut = take_beyond n (stored f) (body fs) (leb→le _ _ e) in
      let long = ap length cut in
      let (gs, q, front, whole) =
        drain_cut fs m fuel h.1
          (omega (arith, long, length-append (stored f) (take m (body fs)), length-stored f)) in
      (
        f ∷ gs,
        rw (cut, next-stored f (take m (body fs)) h.0, q),
        (refl, front),
        λ all. ap (◌∷◌ f) (whole (omega (arith, length-append (stored f) (body fs)))),
      )
  | inr e ↦ (
    [],
    rw (take_within n (stored f) (body fs) (ground arith))
        (stop_after _ _ (next-short f n h.0 (not_leb→lt _ _ e))),
    tt,
    λ all. absurd (omega (arith, not_leb→lt _ _ e, length-append (stored f) (body fs))),
  )
]

replay_cut_lem :
    (fs : List Frame) (n : ℕ)
    → All IsStorable fs
    → (gs : List Frame) × (replay_file (take n (header_bytes file_header ++ body fs)) ≡ some gs)
      × IsFront gs fs
      × (16 + length (body fs) ≤ n → gs ≡ fs)
unfolding replay_file open_replayer Io.open_in header_bytes drain text_eq
replay_cut_lem fs n h = elim (Bool-cases (leb 16 n)) [
  | inl e ↦
      let (gs, q, front, whole) =
        drain_cut fs (n - 16) (length (take (n - 16) (body fs)) + 1) h (omega arith) in
      (
        gs,
        ap
              (λ bs.
                replay_opened
                  (with_file_header (Io.read 16 (record { failed = false; rest = bs }))))
              (take_beyond n header (body fs) (leb→le 16 n e))
            ∙ ap (λ p. replay_opened (with_file_header p))
                (read_front 16 header (take (n - 16) (body fs)) refl)
            ∙ q,
        front,
        λ all. whole (omega arith),
      )
  | inr e ↦ (
    [],
    ap (λ p. replay_opened (with_file_header p))
        (read_short 16 (take n (header ++ body fs))
          (omega (arith, not_leb→lt 16 n e, length-take n (header ++ body fs)))),
    tt,
    λ all. absurd (omega (arith, not_leb→lt 16 n e)),
  )
]
  where
    header : Bytes
    header = header_bytes file_header

empty_payload : (bs : Bytes) → (length bs == 0) ≡ true → bs ≡ []
empty_payload [] e = refl
empty_payload (b ∷ bs) e = absurd (ground arith)

len-rec_of_frame : (f : Frame) → IsStorable f → (rec_of_frame f).len ≡ length f.payload
unfolding rec_of_frame
len-rec_of_frame f h = omega (arith, h.len)

write_frame-Logged :
    {n : ℕ} {total : Bytes} {r : Recorder} (f : Frame)
    → IsStorable f
    → Logged n total r.out
    → Logged n (total ++ stored f) (write_frame f r).1.out
unfolding write_frame
write_frame-Logged {n} {total} {r} f h l = elim (Bool-cases r.out.failed) [
  | inl bad ↦ simp bad (Logged-failed (stored f) l bad)
  | inr good ↦
      simp (good, len-rec_of_frame f h)
        (elim (Bool-cases (length f.payload == 0)) [
          | inl none_there ↦ simp none_there (
              subst (λ t. Logged n (total ++ t) (Io.write hdr r.out))
                (sym (append-nil hdr) ∙ ap (◌++◌ hdr) (sym (empty_payload f.payload none_there)))
                (write-Logged hdr l))
          | inr some_there ↦
              simp (some_there, take_all (length f.payload) f.payload (omega arith))
                (rw (← append_assoc total hdr f.payload)
                  (write-Logged f.payload (write-Logged hdr l)))
        ])
]
  where
    hdr : Bytes
    hdr = rec_bytes (rec_of_frame f)

record_all-Logged :
    (fs : List Frame) {n : ℕ} {total : Bytes} {r : Recorder}
    → All IsStorable fs
    → Logged n total r.out
    → Logged n (total ++ body fs) (record_all fs r).out
unfolding record_all
record_all-Logged [] {n} {total} {r} h l = rw (append-nil total) l
record_all-Logged (f ∷ fs) {n} {total} {r} h l =
    rw (← append_assoc total (stored f) (body fs))
      (record_all-Logged fs h.1 (write_frame-Logged f h.0 l))

opened-Logged :
    (n : ℕ)
    → 16 ≤ n
    → Logged n (header_bytes file_header) (open_recorder (some n) new_recorder).1.out
unfolding open_recorder Io.open_out header_bytes
opened-Logged n h = write-Logged {n = n} {total = []} (header_bytes file_header) (record {
  is_open = refl;
  written = sym (take_all n [] (omega arith));
  failed = sym (le→not_ltb n 0 (omega arith));
  room = omega arith;
})

opened : (n : ℕ) → 16 ≤ n → (open_recorder (some n) new_recorder).0 ≡ true
unfolding open_recorder Io.open_out header_bytes Io.write
opened n h = rw (le→leb 16 n h)

-- Whatever of a file survives, up to any cut, replays to the first frames of the recording. Every
-- frame must be storable.
pub replay_cut :
    (fs : List Frame) (n : ℕ)
    → All IsStorable fs
    → (gs : List Frame) × (replay_file (take n (header_bytes file_header ++ body fs)) ≡ some gs)
      × IsFront gs fs
replay_cut fs n h = let (gs, q, front, whole) = replay_cut_lem fs n h in (gs, q, front)

-- A recording on a device that takes `n` bytes, the file header at least, opens, and what is on the
-- device in the end replays to its first frames. Every frame must be storable.
pub replay_full_device :
    (fs : List Frame) (n : ℕ)
    → All IsStorable fs
    → 16 ≤ n
    → ((open_recorder (some n) new_recorder).0 ≡ true)
      × ((gs : List Frame) × (replay_file
              (record_all fs (open_recorder (some n) new_recorder).1).out.written
            ≡ some gs)
          × IsFront gs fs)
replay_full_device fs n h k =
    (opened n k, rw (record_all-Logged fs h (opened-Logged n k)).written (replay_cut fs n h))

-- A recording on a device with room for all of it replays to exactly the frames that were written, in
-- their order. Every frame must be storable.
pub replay_recording :
    (fs : List Frame) (n : ℕ)
    → All IsStorable fs
    → 16 + length (body fs) ≤ n
    → replay_file (record_all fs (open_recorder (some n) new_recorder).1).out.written ≡ some fs
replay_recording fs n h k =
    let (gs, q, front, whole) = replay_cut_lem fs n h in
    rw (record_all-Logged fs h (opened-Logged n (omega arith))).written (q ∙ ap some (whole k))
