-- ===== src/Libc/Text/Copies.antt =====
-- What the copies leave in the memory, and the tests on texts.
use t1_sistemas_embarcados.Prelude.{
  ℕ, zero, suc, ◌+◌, ◌≤◌, ◌<◌, ◌≡◌, refl, sym, ap, ◌∙◌, fun_ext, false, arith, ◌==◌, ◌⊎◌, some,
  List, [], ◌∷◌, ◌++◌, length,
}
use mathlib.Core.Path.{subst}
use t1_sistemas_embarcados.Libc.Memory.{Memory, write, copy_up}
use t1_sistemas_embarcados.Libc.Memory.Blocks.{moved, moved_at, copy_up_lem}
use t1_sistemas_embarcados.Libc.Text.{copy_text, strcpy, end_of, strcat}

-- The bytes of `cs`, none of them 0, stand from `p` on and a byte 0 behind them.
abbrev pub IsText : Memory → ℕ → List ℕ → Type 0
IsText m p [] = m p ≡ 0
IsText m p (c ∷ cs) = (m p ≡ c) × ((c == 0) ≡ false) × IsText m (p + 1) cs

pub IsText-cong :
    (cs : List ℕ) (p : ℕ) (m m' : Memory)
    → ((x : ℕ) → p ≤ x → x ≤ p + length cs → m' x ≡ m x)
    → IsText m p cs
    → IsText m' p cs
IsText-cong [] p m m' h t = h p (omega arith) (omega arith) ∙ t
IsText-cong (c ∷ cs) p m m' h (e, n, t) = (
  h p (omega arith) (omega arith) ∙ e,
  n,
  IsText-cong cs (p + 1) m m' (λ x a b. h x (omega arith) (omega arith)) t,
)

-- Two texts one behind the other are their concatenation.
pub IsText-append :
    (us vs : List ℕ) (p : ℕ) (m m' : Memory)
    → IsText m p us
    → ((x : ℕ) → p ≤ x → x < p + length us → m' x ≡ m x)
    → IsText m' (p + length us) vs
    → IsText m' p (us ++ vs)
IsText-append [] vs p m m' t h u = subst (λ q. IsText m' q vs) (omega arith) u
IsText-append (a ∷ us) vs p m m' (e, n, t) h u = (
  h p (omega arith) (omega arith) ∙ e,
  n,
  IsText-append us vs (p + 1) m m' t (λ x l k. h x (omega arith) (omega arith))
      (subst (λ q. IsText m' q vs) (omega arith) u),
)

-- Bytes that stand elsewhere in the same order are the same text.
IsText-moved :
    (cs : List ℕ) (p q : ℕ) (m m' : Memory)
    → ((i : ℕ) → i ≤ length cs → m' (q + i) ≡ m (p + i))
    → IsText m p cs
    → IsText m' q cs
IsText-moved [] p q m m' h t =
    sym (ap m' (omega arith)) ∙ h 0 (omega arith) ∙ ap m (omega arith) ∙ t
IsText-moved (c ∷ cs) p q m m' h (e, n, t) = (
  sym (ap m' (omega arith)) ∙ h 0 (omega arith) ∙ ap m (omega arith) ∙ e,
  n,
  IsText-moved cs (p + 1) (q + 1) m m'
      (λ i l. ap m' (omega arith) ∙ h (suc i) (omega arith) ∙ ap m (omega arith)) t,
)

copy_text_lem :
    (fuel : ℕ) (cs : List ℕ) (dst src : ℕ) (m : Memory)
    → length cs < fuel
    → IsText m src cs
    → (dst ≤ src) ⊎ (src + length cs < dst)
    → copy_text fuel dst src m ≡ some (copy_up (suc (length cs)) dst src m)
unfolding copy_text copy_up
copy_text_lem zero cs dst src m f t h = absurd (omega arith)
copy_text_lem (suc fuel) [] dst src m f t h = rw t refl
copy_text_lem (suc fuel) (c ∷ cs) dst src m f (e, n, t) h =
    let later = IsText-cong cs (src + 1) m (write dst (m src) m) (λ x a b. ground arith) t in
    let rest =
      copy_text_lem fuel cs (dst + 1) (src + 1) (write dst (m src) m) (omega arith) later
        (ground arith) in
    let full : (m src == 0) ≡ false = rw e n in rw full rest

end_of_lem :
    (fuel : ℕ) (cs : List ℕ) (p : ℕ) (m : Memory)
    → length cs < fuel
    → IsText m p cs
    → end_of fuel p m ≡ some (p + length cs)
unfolding end_of
end_of_lem zero cs p m f t = absurd (omega arith)
end_of_lem (suc fuel) [] p m f t = rw t (ap some (omega arith))
end_of_lem (suc fuel) (c ∷ cs) p m f (e, n, t) =
    rw (e, n, end_of_lem fuel cs (p + 1) m (omega arith) t) (ap some (omega arith))

-- `strcpy` from a source that holds the text `cs`, its end not inside the copy, returns the destination; the bytes
-- of `cs` and a 0 then stand there, and every other byte is as it was.
strcpy_lem :
    (fuel : ℕ) (cs : List ℕ) (dst src : ℕ) (m : Memory)
    → length cs < fuel
    → IsText m src cs
    → (dst ≤ src) ⊎ (src + length cs < dst)
    → (strcpy fuel dst src m ≡ some (dst, moved dst src (suc (length cs)) m))
      × IsText (moved dst src (suc (length cs)) m) dst cs
unfolding strcpy
strcpy_lem fuel cs dst src m f t h =
    let same = fun_ext λ x. copy_up_lem (suc (length cs)) dst src m x (ground arith) in
    (
      rw (copy_text_lem fuel cs dst src m f t h) (ap (λ w. some (dst, w)) same),
      IsText-moved cs src dst m _ (λ i l. moved_at dst src (suc (length cs)) i m (omega arith)) t,
    )

-- `strcat` with a destination that holds the text `us` and a source that holds `vs`, its end not
-- inside the copy, returns the
-- destination; it then holds the text `us ++ vs`, and outside the `vs` bytes and the 0 behind them every byte is as it was.
pub strcat_lem :
    (fuel : ℕ) (us vs : List ℕ) (dst src : ℕ) (m : Memory)
    → length us < fuel
    → length vs < fuel
    → IsText m dst us
    → IsText m src vs
    → (dst + length us ≤ src) ⊎ (src + length vs < dst + length us)
    → (strcat fuel dst src m ≡ some (dst, moved (dst + length us) src (suc (length vs)) m))
      × IsText (moved (dst + length us) src (suc (length vs)) m) dst (us ++ vs)
unfolding strcat
strcat_lem fuel us vs dst src m f g t u h =
    let same =
      fun_ext λ x. copy_up_lem (suc (length vs)) (dst + length us) src m x (ground arith) in
    let copied = copy_text_lem fuel vs (dst + length us) src m g u h in
    (
      rw (end_of_lem fuel us dst m f t, copied) (ap (λ w. some (dst, w)) same),
      IsText-append us vs dst m _ t (λ x l k. ground arith)
          (IsText-moved vs src (dst + length us) m _
            (λ i l. moved_at (dst + length us) src (suc (length vs)) i m (omega arith)) u),
    )
