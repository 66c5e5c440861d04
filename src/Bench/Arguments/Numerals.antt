-- ===== src/Bench/Arguments/Numerals.antt =====
-- The senders run with the numbers that the command line prints.
use open_vbus.Base.{
  lt→not_leb, ◌∙◌, ℕ, ◌*◌, ◌%◌, ◌^◌, ◌<◌, ◌≡◌, refl, some, [], ◌∷◌, Text, codes, text_eq, to_string,
  arith,
}
use open_vbus.Daemon.Numbers.Print.{stoul-to_string}
use open_vbus.Bench.Arguments.{stoul, Doubles, send_udp, send_tcp, parse_rate, plan}

-- `udp` and `tcp` run their sender with the host, the port and the rate of the command line and the
-- duration in nanoseconds, for a port of 16 bits, a rate that `std::stod` reads and a duration that
-- fits in 64 bits of nanoseconds.
pub plan_lem :
    {D : Type 0} (doubles : Doubles D) (host rate : Text) (port bps seconds : ℕ)
    → port < 2 ^ 16
    → seconds * 1_000_000_000 < 2 ^ 64
    → parse_rate doubles rate ≡ some bps
    → (plan doubles (codes "udp" ∷ host ∷ to_string port ∷ rate ∷ to_string seconds ∷ [])
        ≡ send_udp host port bps (seconds * 1_000_000_000))
      × (plan doubles (codes "tcp" ∷ host ∷ to_string port ∷ rate ∷ to_string seconds ∷ [])
          ≡ send_tcp host port bps (seconds * 1_000_000_000))
unfolding plan text_eq
plan_lem doubles host rate port bps seconds hp hs e =
    let p : stoul (to_string port) ≡ some port =
      (stoul-to_string port (omega (arith, hp))).1
      ∙ rw (lt→not_leb (2 ^ 32) port (omega (arith, hp))) refl in
    let s = (stoul-to_string seconds (omega (arith, hs))).0 in
    let p' : port % 2 ^ 16 ≡ port = omega (arith, hp) in
    let s' : seconds * 1_000_000_000 % 2 ^ 64 ≡ seconds * 1_000_000_000 = omega (arith, hs) in
    (rw p (rw s (rw e (rw p' (rw s' refl)))), rw p (rw s (rw e (rw p' (rw s' refl)))))
