-- ===== src/Net/Icmp/Reply.antt =====
-- The checksum of the reply to an echo request.
use t1_sistemas_embarcados.Prelude.{
  ℕ, zero, suc, ◌+◌, ◌-◌, ◌*◌, ◌/◌, ◌^◌, ◌%◌, ◌≤◌, ◌<◌, ◌≡◌, refl, ap, sym, ◌∙◌, Option, none, some,
  ltb, if◌then◌else◌, arith,
}
use mathlib.Core.Path.{subst}
use t1_sistemas_embarcados.Libc.Memory.{Memory}
use t1_sistemas_embarcados.Net.{byte_at, put, word_at}
use t1_sistemas_embarcados.Net.Ip.{add_words, fold}
use t1_sistemas_embarcados.Net.Ip.Sum.{
  Folds, Folds-full, Folds-same, fold_lem, total, add_words-total,
}
use t1_sistemas_embarcados.Net.Icmp.{updated, echo_packet}

-- The words of a message of `n` more words than the type and the checksum.
abbrev pub message_sum : ℕ → Memory → ℕ
message_sum n packet = total (suc (suc n)) 20 packet

total-put : (n i j v : ℕ) (f : Memory) → j < i → total n i (put j v f) ≡ total n i f
total-put zero i j v f h = refl
total-put (suc n) i j v f h =
    let upper : byte_at i (put j v f) ≡ byte_at i f = ground arith in
    let lower : byte_at (i + 1) (put j v f) ≡ byte_at (i + 1) f = ground arith in
    omega (arith, upper, lower, total-put n (i + 2) j v f (omega arith))

abbrev value : Option ℕ → ℕ
value none = 0
value (some x) = x

-- The reply's words: the request's, or 2^16 - 1 less.
echo-total :
    (n : ℕ) (packet : Memory)
    → byte_at 20 packet ≡ 8
    → word_at 22 packet < 2 ^ 16
    → message_sum n packet
      ≡ message_sum n (echo_packet packet)
        + 65535 * (if ltb (0xffff - 8 * 2 ^ 8) (word_at 22 packet) then 1 else 0)
unfolding echo_packet
echo-total n packet echo w =
    let c = updated (word_at 22 packet) in
    let first = put 20 0 packet in
    let second = put 22 (c / 2 ^ 8) first in
    let rest : total n 24 (put 23 (c % 2 ^ 8) second) ≡ total n 24 packet =
      total-put n 24 23 (c % 2 ^ 8) second (omega arith)
      ∙ total-put n 24 22 (c / 2 ^ 8) first (omega arith)
      ∙ total-put n 24 20 0 packet (omega arith) in
    let sum : word_at 22 (echo_packet packet) ≡ c = omega arith in
    let kind : word_at 20 (echo_packet packet) ≡ byte_at 21 packet = omega arith in
    ground (arith, rest, sum, kind)

reply_pos :
    (n : ℕ) (packet : Memory)
    → byte_at 20 packet ≡ 8
    → word_at 22 packet < 2 ^ 16
    → Folds (message_sum n packet) 0xffff
    → 0 < message_sum n (echo_packet packet)
reply_pos n packet echo w folds =
    let (q, e) = Folds-full (message_sum n packet) folds in
    let change = echo-total n packet echo w in
    let large : 8 * 2 ^ 8 + word_at 22 packet ≤ message_sum n packet = omega arith in
    positive (message_sum n packet) (message_sum n (echo_packet packet)) (word_at 22 packet) q e
      change large
  where
    positive :
        (s s' c q : ℕ)
        → s ≡ 65535 + 65535 * q
        → s ≡ s' + 65535 * (if ltb (0xffff - 8 * 2 ^ 8) c then 1 else 0)
        → 8 * 2 ^ 8 + c ≤ s
        → 0 < s'
    positive s s' c q e f g = ground arith

-- Where the message of an echo request has a right checksum, so has that of the reply, which is the request with its
-- type and its checksum changed.
pub echo_packet_lem :
    (n : ℕ) (packet : Memory)
    → message_sum n packet < 2 ^ 32
    → byte_at 20 packet ≡ 8
    → word_at 22 packet < 2 ^ 16
    → fold 3 (add_words (suc (suc n)) 20 0 packet) ≡ some 0xffff
    → fold 3 (add_words (suc (suc n)) 20 0 (echo_packet packet)) ≡ some 0xffff
unfolding echo_packet
echo_packet_lem n packet small echo w valid =
    let before = message_sum n packet in
    let after = message_sum n (echo_packet packet) in
    let change = echo-total n packet echo w in
    let added = add_words-total (suc (suc n)) 20 0 packet (omega arith) in
    let added' = add_words-total (suc (suc n)) 20 0 (echo_packet packet) (ground arith) in
    let (r, e, folds) = fold_lem before small in
    let (r', e', folds') = fold_lem after (ground arith) in
    let full : r ≡ 0xffff = ap value (sym e ∙ ap (fold 3) (omega (arith, added)) ∙ valid) in
    ap (fold 3) (omega (arith, added'))
    ∙ e'
    ∙ ap some (
        sym (
          Folds-same before after r r'
            (if ltb (0xffff - 8 * 2 ^ 8) (word_at 22 packet) then 1 else 0) (omega (arith, echo))
            (reply_pos n packet echo w (subst (Folds before) full folds)) change folds folds')
        ∙ full)
