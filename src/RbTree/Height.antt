-- ===== src/RbTree/Height.antt =====
-- How far down `rb_search` of rbtree.c goes.
use native.Mathlib.Omega.{pow_step}
use native.Mathlib.Nat.{pow-le-pow_right, mul-le-mul, mul_assoc, one-mul, le_trans}
use mocp.Prelude.{
  ℕ, zero, suc, ◌+◌, ◌*◌, ◌^◌, ◌≤◌, max, ◌≡◌, sym, ap, ◌∙◌, length, length-append, arith, ◌∷◌,
}
use mocp.RbTree.{
  Tree, leaf, node, Color, red, black, Way, top, left, right, Order, search_from, rb_search,
}
use mocp.RbTree.Contents.{inorder}
use mocp.RbTree.Balance.{IsRb, leaf_rb, red_rb, black_rb, IsBalanced}

pow_add : (n m : ℕ) → 2 ^ (n + m) ≡ 2 ^ n * 2 ^ m
pow_add zero m = ap (λ z. 2 ^ z) (omega arith) ∙ sym (one-mul (2 ^ m))
pow_add (suc n) m =
    ap (λ z. 2 ^ z) (omega arith)
    ∙ pow_step 2 (n + m)
    ∙ ap (λ z. 2 * z) (pow_add n m)
    ∙ sym (mul_assoc 2 (2 ^ n) (2 ^ m))
    ∙ ap (λ z. z * 2 ^ m) (sym (pow_step 2 n))

extra : Color → ℕ
extra red = 1
extra black = 0

extra_le : (c : Color) → extra c ≤ 1
unfolding extra
extra_le red = omega arith
extra_le black = omega arith

module _ {D : Type 0} where
  -- the nodes above a focus: the loop has compared the key with each
  unfoldable pub steps : Way D → ℕ
  steps top = 0
  steps (left c v s p) = suc (steps p)
  steps (right c s v p) = suc (steps p)

  depth : Tree D → ℕ
  depth leaf = 0
  depth (node c a v b) = suc (max (depth a) (depth b))

  depth-IsRb : (t : Tree D) {c : Color} {n : ℕ} → IsRb t c n → depth t ≤ n + n + extra c
  unfolding depth extra
  depth-IsRb _ leaf_rb = omega arith
  depth-IsRb _ (red_rb {a} {b} h k) = omega (arith, depth-IsRb a h, depth-IsRb b k)
  depth-IsRb _ (black_rb {a} {b} {c = c} {d = d} h k) =
      omega (arith, depth-IsRb a h, depth-IsRb b k, extra_le c, extra_le d)

  size-IsRb : (t : Tree D) {c : Color} {n : ℕ} → IsRb t c n → 2 ^ n ≤ suc (length (inorder t))
  unfolding inorder
  size-IsRb _ leaf_rb = omega arith
  size-IsRb _ (red_rb {a} {b} {v} h k) =
      omega (arith, size-IsRb a h, size-IsRb b k, length-append (inorder a) (v ∷ inorder b))
  size-IsRb _ (black_rb {a} {b} {v} h k) =
      omega (arith, size-IsRb a h, size-IsRb b k, length-append (inorder a) (v ∷ inorder b))

module _ {K D : Type 0} (o : Order K D) where
  steps-search_from :
      (k : K) (t : Tree D) (p : Way D) → steps (search_from o k t p).1 ≤ steps p + depth t
  unfolding steps search_from depth
  steps-search_from k leaf p = omega arith
  steps-search_from k (node c a v b) p =
      ground (arith, steps-search_from k a (left c v b p), steps-search_from k b (right c a v p))

  -- In a balanced red-black tree of n elements rb_search compares the key with at most 2 log2 (n + 1)
  -- elements before the node that it ends at: 2 to that number is no more than the square of n + 1.
  pub steps-search :
      (k : K) (t : Tree D)
      → IsBalanced t
      → 2 ^ steps (rb_search o t k).1 ≤ suc (length (inorder t)) * suc (length (inorder t))
  unfolding rb_search steps extra
  steps-search k t (n, h) =
      let low : steps (search_from o k t top).1 ≤ n + n =
        (omega (arith, steps-search_from k t top, depth-IsRb t h)) in
      le_trans (pow-le-pow_right (omega arith) low)
        (rw (pow_add n n) (mul-le-mul (size-IsRb t h) (size-IsRb t h)))
