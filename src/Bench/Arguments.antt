-- ===== src/Bench/Arguments.antt =====
-- `main` of vbus_bench.cpp: what its arguments make it run. Doubles and `std::stod` are parameters.
pub mod Numerals
use open_vbus.Base.{
  false, true, ℕ, ◌+◌, ◌*◌, ◌%◌, ◌^◌, Option, none, some, Bool, ◌&&◌, List, [], ◌∷◌, leb, ◌==◌,
  if◌then◌else◌, Text, codes, text_eq,
}
use open_vbus.Daemon.Numbers.{stoul, stoull}

-- Doubles: `stod` is `none` where `std::stod` throws, `times` multiplies by a whole number, and
-- `to_u64` is the conversion to `uint64_t`.
pub record Doubles (D : Type 0) : Type 0 where
  pub stod : Text → Option D
  pub times : D → ℕ → D
  pub to_u64 : D → ℕ

-- `std::tolower` of the last character; 0 for an empty text
unfoldable pub suffix : Text → ℕ
suffix [] = 0
suffix (c ∷ []) = if leb b'A' c && leb c b'Z' then c + 32 else c
suffix (c ∷ d ∷ s) = suffix (d ∷ s)

-- How `main` ends: the usage text, an exception that nothing catches, or one of its three loops.
pub data Plan : Type 0 where
  usage terminated : Plan
  receive : ℕ → Plan
  send_udp send_tcp : Text → ℕ → ℕ → ℕ → Plan

receiving : Option ℕ → Plan
receiving none = terminated
receiving (some port) = receive (port % 2 ^ 16)

duration_of : List Text → Option ℕ
unfolding stoull
duration_of [] = some 0
duration_of (d ∷ rest) = seconds (stoull d)
  where
    seconds : Option ℕ → Option ℕ
    seconds none = none
    seconds (some n) = some (n * 1_000_000_000 % 2 ^ 64)

module _ {D : Type 0} (doubles : Doubles D) where
  factor : ℕ → D → D
  factor suf v =
      if suf == b'g'
      then doubles.times v 1_000_000_000
      else if suf == b'm'
      then doubles.times v 1_000_000
      else if suf == b'k'
      then doubles.times v 1000
      else v

  unfoldable pub parse_rate : Text → Option ℕ
  unfolding factor suffix
  parse_rate s = scaled (doubles.stod s)
    where
      scaled : Option D → Option ℕ
      scaled none = none
      scaled (some v) = some (doubles.to_u64 (factor (suffix s) v))

  sending : Bool → Text → Option ℕ → Option ℕ → Option ℕ → Plan
  sending udp host (some port) (some rate) (some ns) =
      if udp then send_udp host (port % 2 ^ 16) rate ns else send_tcp host (port % 2 ^ 16) rate ns
  sending udp host _ _ _ = terminated

  recv_arguments : List Text → Plan
  unfolding receiving stoul
  recv_arguments [] = usage
  recv_arguments (port ∷ rest) = receiving (stoul port)

  send_arguments : Bool → List Text → Plan
  unfolding sending stoul parse_rate duration_of
  send_arguments udp (host ∷ port ∷ rate ∷ rest) =
      sending udp host (stoul port) (parse_rate rate) (duration_of rest)
  send_arguments udp _ = usage

  -- `main`, on the arguments behind the program's name
  unfoldable pub plan : List Text → Plan
  unfolding recv_arguments send_arguments
  plan [] = usage
  plan (mode ∷ rest) =
      if text_eq mode (codes "recv")
      then recv_arguments rest
      else if text_eq mode (codes "udp")
      then send_arguments true rest
      else if text_eq mode (codes "tcp")
      then send_arguments false rest
      else usage
