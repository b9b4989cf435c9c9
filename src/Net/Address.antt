-- ===== src/Net/Address.antt =====
-- ip.c: the tests on IP addresses.
use Prim.Native.Nat.{bit_and}
use t1_sistemas_embarcados.Prelude.{◌-◌, ◌^◌, Bool, ◌||◌, [], ◌∷◌}
use t1_sistemas_embarcados.Net.{Bytes, same, array}

-- `ip_addr_maskcmp`.
abbrev pub ip_addr_maskcmp : Bytes → Bytes → Bytes → Bool
ip_addr_maskcmp addr1 addr2 mask =
    same 4 (λ i. bit_and (addr1 i) (mask i)) (λ i. bit_and (addr2 i) (mask i))

-- `ip_addr_cmp`.
abbrev pub ip_addr_cmp : Bytes → Bytes → Bool
ip_addr_cmp addr1 addr2 = same 4 addr1 addr2

-- `ip_addr_isany`.
abbrev pub ip_addr_isany : Bytes → Bool
ip_addr_isany addr = same 4 addr (array (0x00 ∷ 0x00 ∷ 0x00 ∷ 0x00 ∷ []))

-- `ip_addr_isbroadcast`, `~mask[i] & 0xff` being `0xff - mask i`.
abbrev pub ip_addr_isbroadcast : Bytes → Bytes → Bool
ip_addr_isbroadcast addr mask =
    let ad : Bytes = λ i. bit_and (addr i) (2 ^ 8 - 1 - mask i) in
    same 4 ad (λ i. 2 ^ 8 - 1 - mask i)
    || (same 4 ad (array (0x00 ∷ 0x00 ∷ 0x00 ∷ 0x00 ∷ []))
        || same 4 ad (array (0xff ∷ 0xff ∷ 0xff ∷ 0xff ∷ [])))

-- `ip_addr_ismulticast`.
abbrev pub ip_addr_ismulticast : Bytes → Bool
ip_addr_ismulticast addr =
    same 4 (λ i. bit_and (addr i) (array (0xf0 ∷ 0x00 ∷ 0x00 ∷ 0x00 ∷ []) i))
      (array (0xe0 ∷ 0x00 ∷ 0x00 ∷ 0x00 ∷ []))
