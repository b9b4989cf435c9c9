-- ===== src/Net/Ip.antt =====
-- ip.c: the header's checksum and `ip_out`.
pub mod Sum
pub mod Header
use t1_sistemas_embarcados.Libc.{◌>>=◌}
use t1_sistemas_embarcados.Prelude.{
  ℕ, zero, suc, ◌+◌, ◌-◌, ◌*◌, ◌/◌, ◌^◌, ◌%◌, Option, none, some, ◌==◌, if◌then◌else◌,
}
use t1_sistemas_embarcados.Libc.Memory.{Memory}
use t1_sistemas_embarcados.Net.{Bytes, Net, byte_at, put, word_at}
use t1_sistemas_embarcados.Net.Netif.{netif_send}

-- The words from `i` on, `n` of them, added to `sum` in 32 bits.
unfoldable pub add_words : ℕ → ℕ → ℕ → Memory → ℕ
add_words zero i sum f = sum
add_words (suc n) i sum f = add_words n (i + 2) ((sum + word_at i f) % 2 ^ 32) f

-- `while (sum & 0xffff0000) sum = (sum & 0xffff) + (sum >> 16);`
unfoldable pub fold : ℕ → ℕ → Option ℕ
fold zero sum = none
fold (suc fuel) sum =
    let rest = fold fuel (sum % 2 ^ 16 + sum / 2 ^ 16) in
    if sum / 2 ^ 16 == 0 then some sum else rest

-- `ipchksum`.
pub ipchksum : Memory → Option ℕ
ipchksum packet = fold 3 (add_words 10 0 0 packet)

-- `packet[i + k] = bytes[k]` for an IP address.
abbrev pub put_address : ℕ → Bytes → Memory → Memory
put_address i bytes f =
    put (i + 3) (bytes 3) (put (i + 2) (bytes 2) (put (i + 1) (bytes 1) (put i (bytes 0) f)))

-- The header that `ip_out` writes, with the checksum 0; the protocol stays.
abbrev pub plain_header : Bytes → ℕ → Net → Memory → Memory
plain_header dst len net f = put 10 0 (
    put 11 0 (
      put_address 16 dst (
        put_address 12 net.myip (
          put 8 64 (
            put 7 0 (
              put 6 0 (
                put 5 0 (
                  put 4 0
                    (put 3 (len % 2 ^ 8) (put 2 (len / 2 ^ 8) (put 1 0 (put 0 0x45 f))))))))))))

-- The packet that `ip_out` gives to `netif_send`.
pub ip_packet : Bytes → Memory → ℕ → Net → Option Memory
ip_packet dst packet len net =
    let plain = plain_header dst len net packet in
    do
      chksum ← ipchksum plain
      let sum = 2 ^ 16 - 1 - chksum % 2 ^ 16 in
          some (put 11 (sum % 2 ^ 8) (put 10 (sum / 2 ^ 8) plain))

-- `ip_out`: the result, the frame and the state.
pub ip_out : Bytes → Memory → ℕ → Net → Option (ℕ × Memory × Net)
ip_out dst packet len net = do ready ← ip_packet dst packet len net; some (netif_send ready len net)
