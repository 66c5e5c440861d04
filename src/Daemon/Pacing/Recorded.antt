-- ===== src/Daemon/Pacing/Recorded.antt =====
-- From the recorder to the network: a recording that `replay-udp` plays.
use open_vbus.Base.{
  arith, inl, inr, Bool-cases, ltb, ◌⊎◌, ℕ, ◌+◌, ◌≤◌, ◌≡◌, ◌∙◌, refl, ap, true, false, some, List,
  [], ◌∷◌, ◌++◌, ◌>>=◌, Text, length, All,
}
use open_vbus.Frame.{Frame}
use open_vbus.Scheduler.{SimTime}
use open_vbus.Vcap.{new_recorder, open_recorder}
use open_vbus.Vcap.Records.{IsStorable}
use open_vbus.Vcap.RoundTrip.{body, record_all, replay_recording}
use open_vbus.Daemon.State.{as_datagrams}
use open_vbus.Daemon.Pacing.{
  Sending, Play, Output, onto, datagram, closed, Network, address_of, send_payload, outputs_of,
  own_first, play_loop, play_own, frames_of, played, output_of, with_socket, done_by, run_replay,
}
use open_vbus.Daemon.Pacing.Timely.{frames_sent, play_burst}

-- A call of `sendto` for each frame, to one address, with the results that the network gives.
abbrev pub attempts : Network → ℕ → ℕ → ℕ → List Frame → List Output
attempts net address port n [] = []
attempts net address port n (f ∷ fs) =
    datagram address port f.payload (net.sendto n address port f.payload)
    ∷ attempts net address port (n + 1) fs

-- A payload that is too long does not go out.
abbrev pub Fits : Output → Type 0
Fits (onto address f) = Unit {0}
Fits (datagram address port payload out) = (length payload ≤ 65507) ⊎ (out ≡ false)
Fits closed = Unit {0}

attempts-Fits :
    (net : Network) (address port n : ℕ) (fs : List Frame)
    → All Fits (attempts net address port n fs)
attempts-Fits net address port n [] = tt
attempts-Fits net address port n (f ∷ fs) = (
  elim (Bool-cases (ltb 65507 (length f.payload))) [
    | inl e ↦ inr (net.too_long n address port f.payload (ground arith))
    | inr e ↦ inl (ground arith)
  ],
  attempts-Fits net address port (n + 1) fs,
)

module _ (product : ℕ → ℕ → ℕ) (net : Network) where
  outputs_of-attempts :
      (file host : Text) (port scale n : ℕ) (ss : List Sending)
      → outputs_of product net (as_datagrams file host port false scale) n ss
        ≡ attempts net (address_of (net.inet_pton host)) port n (frames_sent ss)
  unfolding outputs_of output_of send_payload
  outputs_of-attempts file host port scale n [] = refl
  outputs_of-attempts file host port scale n (s ∷ ss) =
      ap (◌∷◌ (output_of product net (as_datagrams file host port false scale) n s))
        (outputs_of-attempts file host port scale (n + 1) ss)

  -- The outputs and the end of a thread, from the frames that it has sent.
  played_out :
      (file host : Text) (port scale : ℕ) (fs : List Frame) (p : Play)
      → frames_sent p.sent ≡ fs
      → p.over ≡ true
      → done_by product net (as_datagrams file host port false scale) true p
        ≡ (attempts net (address_of (net.inet_pton host)) port 0 fs ++ closed ∷ [], true)
  unfolding done_by with_socket
  played_out file host port scale fs p all over =
      let address = address_of (net.inet_pton host) in
      let outputs =
        outputs_of-attempts file host port scale 0 p.sent ∙ ap (attempts net address port 0) all in
      ap (λ sent. (with_socket product net sent p.over, p.over)) outputs
      ∙ ap (λ b. (with_socket product net (attempts net address port 0 fs) b, b)) over

  -- A recording on a device with room for it, played by `replay-udp` in `burst`, makes one call of `sendto`
  -- for each recorded frame, of whatever protocol, with its payload and in the order of the recording,
  -- to the port of the command and the address that `inet_pton` finds for its host, or 0.0.0.0 where it
  -- finds none; it goes on where a call sends nothing, as it does for a payload of more than 65,507
  -- bytes; then the thread closes its socket and ends. Every frame must be storable, and a socket must
  -- be had.
  pub replay_recorded :
      (file host : Text) (port scale : ℕ) (fs : List Frame) (n : ℕ) (begin : SimTime)
      (readings : List SimTime)
      → All IsStorable fs
      → 16 + length (body fs) ≤ n
      → let calls = attempts net (address_of (net.inet_pton host)) port 0 fs in
        (run_replay product net
            (as_datagrams file host port false scale)
            (some (record_all fs (open_recorder (some n) new_recorder).1).out.written)
            true
            (begin ∷ readings)
          ≡ some (calls ++ closed ∷ [], true))
        × All Fits calls
  unfolding run_replay frames_of played play_own
  replay_recorded file host port scale fs n begin readings storable room =
      let whole = play_burst product own_first scale begin fs 0 begin readings in
      (
        ap
              (λ o. o >>= λ gs. some (
                done_by product net (as_datagrams file host port false scale) true
                  (play_loop product own_first false scale begin 0 begin gs readings)))
              (replay_recording fs n storable room)
            ∙ ap some (played_out file host port scale fs _ whole.0 whole.1),
        attempts-Fits net (address_of (net.inet_pton host)) port 0 fs,
      )
