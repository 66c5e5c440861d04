-- ===== src/Net/Tags.antt =====
-- The tag of a captured datagram (udp_endpoint.cpp, and the layout in udp_endpoint.h).
use open_vbus.Base.{ℕ, ◌/◌, ◌%◌, ◌^◌, ◌<◌, ◌≡◌, arith, Bytes}
use open_vbus.Net.{udp_frame}

-- The fields of the tag come back from the bits that udp_endpoint.h gives them, and the tag fits in
-- 64 bits; the address has 32 bits and each port 16.
pub udp_frame_tag :
    (src_ip src_port port ts : ℕ) (datagram : Bytes)
    → src_ip < 2 ^ 32
    → src_port < 2 ^ 16
    → port < 2 ^ 16
    → let t = (udp_frame src_ip src_port port ts datagram).tag in
      (t / 2 ^ 32 ≡ src_ip) × (t / 2 ^ 16 % 2 ^ 16 ≡ src_port) × (t % 2 ^ 16 ≡ port) × (t < 2 ^ 64)
unfolding udp_frame
udp_frame_tag src_ip src_port port ts datagram a b c = omega arith
