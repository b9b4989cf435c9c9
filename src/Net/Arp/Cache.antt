-- ===== src/Net/Arp/Cache.antt =====
-- The cache of addresses: what a search finds after an update.
use t1_sistemas_embarcados.Prelude.{
  ℕ, zero, suc, ◌+◌, ◌%◌, ◌≤◌, ◌<◌, ◌≡◌, refl, ap, ap₂, ◌∙◌, true, false, ◌&&◌, none, some, ltb,
  ◌==◌, if◌then◌else◌, Bool-cases, inl, inr, arith,
}
use t1_sistemas_embarcados.Net.{Bytes, Net, same}
use t1_sistemas_embarcados.Net.Arp.{arp_cache_size, entry_of, set_entry, arp_update, arp_check}

-- Arrays that agree in their first bytes compare alike.
pub same_cong :
    (n : ℕ) (a a' b b' : Bytes)
    → ((i : ℕ) → i < n → a i ≡ a' i)
    → ((i : ℕ) → i < n → b i ≡ b' i)
    → same n a b ≡ same n a' b'
same_cong zero a a' b b' h g = refl
same_cong (suc n) a a' b b' h g =
    ap₂ (λ p q. p && q)
      (same_cong n a a' b b' (λ i l. h i (omega arith)) (λ i l. g i (omega arith)))
      (ap₂ (λ p q. p == q) (h n (omega arith)) (g n (omega arith)))

pub same_refl : (n : ℕ) (a : Bytes) → same n a a ≡ true
same_refl zero a = refl
same_refl (suc n) a = ground (arith, same_refl n a)

-- A search depends on four bytes of the address and on the addresses of the cache.
pub entry_of_cong :
    (left i : ℕ) (ip ip' : Bytes) (net net' : Net)
    → ((k : ℕ) → k < 4 → ip k ≡ ip' k)
    → net.arp_ip ≡ net'.arp_ip
    → entry_of left i ip net ≡ entry_of left i ip' net'
unfolding entry_of
entry_of_cong zero i ip ip' net net' h e = refl
entry_of_cong (suc left) i ip ip' net net' h e =
    let tests = same_cong 4 ip ip' (net.arp_ip i) (net'.arp_ip i) h (λ k l. ap (λ t. t i k) e) in
    ap₂ (λ t r. if t then i else r) tests (entry_of_cong left (i + 1) ip ip' net net' h e)

pub arp_check_cong :
    (ip ip' : Bytes) (net : Net)
    → ((k : ℕ) → k < 4 → ip k ≡ ip' k)
    → arp_check ip net ≡ arp_check ip' net
unfolding arp_check
arp_check_cong ip ip' net h =
    ap (λ i. if ltb i 16 then some (net.arp_mac i) else none)
      (entry_of_cong 16 0 ip ip' net net h refl)

-- The first entry with the address.
entry_of-first :
    (left i t : ℕ) (ip : Bytes) (net : Net)
    → i ≤ t
    → t < i + left
    → ((j : ℕ) → i ≤ j → j < t → same 4 ip (net.arp_ip j) ≡ false)
    → same 4 ip (net.arp_ip t) ≡ true
    → entry_of left i ip net ≡ t
unfolding entry_of
entry_of-first zero i t ip net low high others found = absurd (omega arith)
entry_of-first (suc left) i t ip net low high others found = elim (Bool-cases (i == t)) [
  | inl y ↦
      let here : i ≡ t = ground arith in
      let hit : same 4 ip (net.arp_ip i) ≡ true = ap (λ j. same 4 ip (net.arp_ip j)) here ∙ found in
      rw hit here
  | inr y ↦
      let before : i < t = ground arith in
      rw (others i (omega arith) before) (
        entry_of-first left (i + 1) t ip net (omega arith) (omega arith)
          (λ j l. others j (omega arith)) found)
]

-- A search without success has seen every entry.
entry_of-missing :
    (left i : ℕ) (ip : Bytes) (net : Net)
    → i + left ≤ entry_of left i ip net
    → (j : ℕ) → i ≤ j
    → j < i + left
    → same 4 ip (net.arp_ip j) ≡ false
unfolding entry_of
entry_of-missing zero i ip net missing j low high = absurd (omega arith)
entry_of-missing (suc left) i ip net missing j low high =
    elim (Bool-cases (same 4 ip (net.arp_ip i))) [
      | inl y ↦ absurd (ground arith)
      | inr y ↦ elim (Bool-cases (j == i)) [
        | inl z ↦ let here : j ≡ i = ground arith in ap (λ k. same 4 ip (net.arp_ip k)) here ∙ y
        | inr z ↦ entry_of-missing left (i + 1) ip net (ground arith) j (ground arith) (omega arith)
      ]
    ]

set_entry_same :
    (n i k : ℕ) (bytes : Bytes) (entries : ℕ → Bytes)
    → k < n
    → set_entry n i bytes entries i k ≡ bytes k
set_entry_same n i k bytes entries l = ground arith

set_entry_other :
    (n i j k : ℕ) (bytes : Bytes) (entries : ℕ → Bytes)
    → (j == i) ≡ false
    → set_entry n i bytes entries j k ≡ entries j k
set_entry_other n i j k bytes entries h = rw h refl

arp_check-entry_of :
    (ip : Bytes) (net : Net) (i : ℕ)
    → entry_of 16 0 ip net ≡ i
    → i < 16
    → arp_check ip net ≡ some (net.arp_mac i)
unfolding arp_check
arp_check-entry_of ip net i e l = let inside : ltb i 16 ≡ true = ground arith in rw (e, inside) refl

-- The address is found at the oldest entry once it has been put there.
entry_of-set_entry :
    (ip : Bytes) (net net' : Net)
    → net.arp_index < 16
    → 16 ≤ entry_of 16 0 ip net
    → net'.arp_ip ≡ set_entry 4 net.arp_index ip net.arp_ip
    → entry_of 16 0 ip net' ≡ net.arp_index
entry_of-set_entry ip net net' small missing e =
    let at : (j : ℕ)
        → same 4 ip (net'.arp_ip j) ≡ same 4 ip (set_entry 4 net.arp_index ip net.arp_ip j) =
      λ j. ap (λ t. same 4 ip (t j)) e in
    let others : (j : ℕ) → 0 ≤ j → j < net.arp_index → same 4 ip (net'.arp_ip j) ≡ false =
      λ j low l.
        let away : (j == net.arp_index) ≡ false = ground arith in
        at j
        ∙ same_cong 4 ip ip (set_entry 4 net.arp_index ip net.arp_ip j) (net.arp_ip j) (λ k d. refl)
            (λ k d. set_entry_other 4 net.arp_index j k ip net.arp_ip away)
        ∙ entry_of-missing 16 0 ip net missing j low (omega arith) in
    let here : same 4 ip (net'.arp_ip net.arp_index) ≡ true =
      at net.arp_index
      ∙ same_cong 4 ip ip (set_entry 4 net.arp_index ip net.arp_ip net.arp_index) ip (λ k d. refl)
          (λ k d. set_entry_same 4 net.arp_index k ip net.arp_ip d)
      ∙ same_refl 4 ip in
    entry_of-first 16 0 net.arp_index ip net' (omega arith) (omega arith) others here

-- After `arp_update` of an address, `arp_check` of it gives the six bytes of its hardware address, whether the cache
-- had the address or not.
pub arp_check-arp_update :
    (ip mac : Bytes) (net : Net)
    → net.arp_index < 16
    → (found : Bytes) × (arp_check ip (arp_update ip mac net).1 ≡ some found)
      × ((k : ℕ) → k < 6 → found k ≡ mac k)
unfolding arp_update
arp_check-arp_update ip mac net small = elim (Bool-cases (ltb (entry_of 16 0 ip net) 16)) [
  | inl y ↦
      let i = entry_of 16 0 ip net in
      let after : Net = record net { arp_mac = set_entry 6 i mac net.arp_mac } in
      (
        after.arp_mac i,
        rw y (
            arp_check-entry_of ip after i (entry_of_cong 16 0 ip ip after net (λ k l. refl) refl)
              (ground arith)),
        λ k l. set_entry_same 6 i k mac net.arp_mac l,
      )
  | inr y ↦
      let i = net.arp_index in
      let after : Net = record net {
        arp_ip = set_entry 4 i ip net.arp_ip;
        arp_mac = set_entry 6 i mac net.arp_mac;
        arp_index = (i + 1) % arp_cache_size;
      } in
      (
        after.arp_mac i,
        rw y (
            arp_check-entry_of ip after i
              (entry_of-set_entry ip net after small (ground arith) refl) small),
        λ k l. set_entry_same 6 i k mac net.arp_mac l,
      )
]
