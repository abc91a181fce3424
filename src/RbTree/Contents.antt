-- ===== src/RbTree/Contents.antt =====
-- The data in a tree of rbtree.c in order, and in the tree around a focus.
use mocp.Prelude.{◌≡◌, refl, List, [], ◌∷◌, ◌++◌}
use mocp.RbTree.{Tree, leaf, node, Way, top, left, right, plug, paint, Color}

module _ {D : Type 0} where
  unfoldable pub inorder : Tree D → List D
  inorder leaf = []
  inorder (node c a v b) = inorder a ++ (v ∷ inorder b)

  -- the data in order, with `xs` in the place of the focus
  unfoldable pub flat : Way D → List D → List D
  unfolding inorder
  flat top xs = xs
  flat (left c v s p) xs = flat p (xs ++ (v ∷ inorder s))
  flat (right c s v p) xs = flat p (inorder s ++ (v ∷ xs))

  pub inorder-plug : (t : Tree D) (p : Way D) → inorder (plug t p) ≡ flat p (inorder t)
  unfolding plug flat
  inorder-plug t top = refl
  inorder-plug t (left c v s p) = inorder-plug (node c t v s) p
  inorder-plug t (right c s v p) = inorder-plug (node c s v t) p

  pub inorder-paint : (c : Color) (t : Tree D) → inorder (paint c t) ≡ inorder t
  unfolding inorder
  inorder-paint c leaf = refl
  inorder-paint c (node d a v b) = refl
