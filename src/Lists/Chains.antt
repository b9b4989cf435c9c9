-- ===== src/Lists/Chains.antt =====
-- The chain of nodes that stands for a list, and what a node put in or taken out does to it.
use t1_sistemas_embarcados.Prelude.{
  ℕ, ◌≡◌, refl, ◌∙◌, true, false, List, [], ◌∷◌, ◌++◌, arith, mem, Distinct, ne_of_mem, ◌==◌,
}
use t1_sistemas_embarcados.Lists.{Store, set_elem}

-- The cells of a list: the address of a node and what it holds.
abbrev pub Cells : Type 0
Cells = List (ℕ × ℕ)

abbrev pub addresses : Cells → List ℕ
addresses [] = []
addresses ((a, x) ∷ cells) = a ∷ addresses cells

-- The node behind which the chain ends.
abbrev pub last_of : ℕ → Cells → ℕ
last_of p [] = p
last_of p ((a, x) ∷ cells) = last_of a cells

-- From the node `p` on hang the nodes `cells`, and then NULL.
abbrev pub IsChain : Store → ℕ → Cells → Type 0
IsChain st p [] = st.next p ≡ 0
IsChain st p ((a, x) ∷ cells) =
    (st.next p ≡ a) × ((a == 0) ≡ false) × (st.elem a ≡ x) × IsChain st a cells

pub mem-last_of :
    (pre post : Cells) (a : ℕ) → mem (last_of a pre) (a ∷ addresses (pre ++ post)) ≡ true
mem-last_of [] post a = ground arith
mem-last_of ((b, x) ∷ pre) post a = ground (arith, mem-last_of pre post b)

-- A number outside a list and one in it.
apart : (x y : ℕ) (ns : List ℕ) → mem x ns ≡ false → mem y ns ≡ true → (y == x) ≡ false
apart x y ns h k = ground (arith, ne_of_mem x y ns h k)

-- `q` takes the place of `p` in front of nodes that have not changed.
IsChain-moved :
    (cells : Cells) (p q : ℕ) (st st' : Store)
    → st'.next q ≡ st.next p
    → ((x : ℕ) → mem x (addresses cells) ≡ true → st'.next x ≡ st.next x)
    → ((x : ℕ) → mem x (addresses cells) ≡ true → st'.elem x ≡ st.elem x)
    → IsChain st p cells
    → IsChain st' q cells
IsChain-moved [] p q st st' e n v c = e ∙ c
IsChain-moved ((a, x) ∷ cells) p q st st' e n v (to, z, holds, c) = (
  e ∙ to,
  z,
  v a (ground arith) ∙ holds,
  IsChain-moved cells a a st st' (n a (ground arith)) (λ y h. n y (ground arith))
      (λ y h. v y (ground arith)) c,
)

-- A node `q` put in behind the nodes `pre`.
pub IsChain-put :
    (pre post : Cells) (p q item : ℕ) (st st' : Store)
    → Distinct (p ∷ addresses (pre ++ post))
    → mem q (p ∷ addresses (pre ++ post)) ≡ false
    → (q == 0) ≡ false
    → st'.next (last_of p pre) ≡ q
    → st'.next q ≡ st.next (last_of p pre)
    → st'.elem q ≡ item
    → ((x : ℕ) → (x == last_of p pre) ≡ false → (x == q) ≡ false → st'.next x ≡ st.next x)
    → ((x : ℕ) → (x == q) ≡ false → st'.elem x ≡ st.elem x)
    → IsChain st p (pre ++ post)
    → IsChain st' p (pre ++ ((q, item) ∷ post))
IsChain-put [] post p q item st st' (d, ds) f z to on holds n v c = (
  to,
  z,
  holds,
  IsChain-moved post p q st st' on
      (λ x h. n x (apart p x (addresses post) d h) (apart q x (addresses post) (ground arith) h))
      (λ x h. v x (apart q x (addresses post) (ground arith) h)) c,
)
IsChain-put ((a, y) ∷ pre) post p q item st st' (d, ds) f z to on holds n v (e, k, w, c) = (
  n p (ne_of_mem p (last_of a pre) (a ∷ addresses (pre ++ post)) d (mem-last_of pre post a))
        (ground arith)
      ∙ e,
  k,
  v a (ground arith) ∙ w,
  IsChain-put pre post a q item st st' ds (ground arith) z to on holds n v c,
)

-- The node `a` behind the nodes `pre` taken out.
pub IsChain-take_out :
    (pre post : Cells) (p a item : ℕ) (st st' : Store)
    → Distinct (p ∷ addresses (pre ++ ((a, item) ∷ post)))
    → st'.next (last_of p pre) ≡ st.next a
    → ((x : ℕ) → (x == last_of p pre) ≡ false → st'.next x ≡ st.next x)
    → ((x : ℕ) → st'.elem x ≡ st.elem x)
    → IsChain st p (pre ++ ((a, item) ∷ post))
    → IsChain st' p (pre ++ post)
IsChain-take_out [] post p a item st st' (d, ds) to n v (e, z, holds, c) =
    IsChain-moved post a p st st' to (λ x h. n x (apart p x (addresses post) (ground arith) h))
      (λ x h. v x) c
IsChain-take_out ((b, y) ∷ pre) post p a item st st' (d, ds) to n v (e, z, holds, c) = (
  n p (
        ne_of_mem p (last_of b pre) (b ∷ addresses (pre ++ ((a, item) ∷ post))) d
          (mem-last_of pre ((a, item) ∷ post) b))
      ∙ e,
  z,
  v b ∙ holds,
  IsChain-take_out pre post b a item st st' ds to n v c,
)

mem-middle : (pre post : Cells) (a x : ℕ) → mem a (addresses (pre ++ ((a, x) ∷ post))) ≡ true
mem-middle [] post a x = ground arith
mem-middle ((b, y) ∷ pre) post a x = ground (arith, mem-middle pre post a x)

-- Another value in the node `a`.
pub IsChain-set :
    (pre post : Cells) (p a item v : ℕ) (st : Store)
    → Distinct (addresses (pre ++ ((a, item) ∷ post)))
    → IsChain st p (pre ++ ((a, item) ∷ post))
    → IsChain (set_elem a v st) p (pre ++ ((a, v) ∷ post))
IsChain-set [] post p a item v st (d, ds) (e, z, h, c) = (
  e,
  z,
  ground arith,
  IsChain-moved post a a st (set_elem a v st) refl (λ x k. refl)
      (λ x k. rw (apart a x (addresses post) d k) refl) c,
)
IsChain-set ((b, y) ∷ pre) post p a item v st (d, ds) (e, z, h, c) =
    let other : (b == a) ≡ false =
      ne_of_mem b a (addresses (pre ++ ((a, item) ∷ post))) d (mem-middle pre post a item) in
    (e, z, rw other h, IsChain-set pre post b a item v st ds c)
