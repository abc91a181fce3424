-- ===== src/RbTree/Insert.antt =====
-- `rb_insert` of rbtree.c.
use mocp.Prelude.{ℕ, ◌≡◌, refl, ap, subst, Option, List, ◌∷◌, ◌++◌, append_assoc}
use mocp.RbTree.{Tree, leaf, node, Color, red, black, Way, top, left, right, rb_insert_fixup}
use mocp.RbTree.Contents.{inorder, flat}
use mocp.RbTree.Balance.{
  IsRb, leaf_rb, red_rb, black_rb, Fits, fits_top, left_red, right_red, left_black, right_black,
  black_child, at_root, under_black, Leaves, finish-Leaves,
}

module _ {D : Type 0} where
  Leaves-eq : (o : Option (Tree D)) {xs ys : List D} → xs ≡ ys → Leaves o xs → Leaves o ys
  Leaves-eq o e l = subst (Leaves o) e l

  -- A new red node whose children are balanced, under any parent: the fixup ends with a balanced tree with the
  -- same data in order.
  pub insert_fixup-Leaves :
      (a : Tree D) (x : D) (b : Tree D) (p : Way D) {q : Option Color} {n : ℕ}
      → IsRb a black n
      → IsRb b black n
      → Fits p q n
      → Leaves (rb_insert_fixup (node red a x b) p) (flat p (inorder a ++ (x ∷ inorder b)))
  unfolding rb_insert_fixup flat inorder
  insert_fixup-Leaves a x b top h k fits_top =
      finish-Leaves (node red a x b) top (inorder a ++ (x ∷ inorder b)) fits_top at_root
        (red_rb h k) refl
  insert_fixup-Leaves a x b (left black v s p) h k (left_black g f) =
      finish-Leaves (node red a x b) (left black v s p) (inorder a ++ (x ∷ inorder b))
        (left_black g f) under_black (red_rb h k) refl
  insert_fixup-Leaves a x b (right black s v p) h k (right_black g f) =
      finish-Leaves (node red a x b) (right black s v p) (inorder a ++ (x ∷ inorder b))
        (right_black g f) under_black (red_rb h k) refl
  insert_fixup-Leaves a x b (left red v s top) h k (left_red i f) = elim f [ ]
  insert_fixup-Leaves a x b (right red s v top) h k (right_red i f) = elim f [ ]
  insert_fixup-Leaves a x b (left red v s (left red g u p)) h k (left_red i f) = elim f [ ]
  insert_fixup-Leaves a x b (left red v s (left black g leaf p)) h k
        (left_red i (left_black leaf_rb f)) =
      finish-Leaves (node black (node red a x b) v (node red s g leaf)) p _ f black_child
        (black_rb (red_rb h k) (red_rb i leaf_rb)) (simp append_assoc)
  insert_fixup-Leaves a x b (left red v s (left black g (node black ua uv ub) p)) h k
        (left_red i (left_black (black_rb j l) f)) =
      finish-Leaves (node black (node red a x b) v (node red s g (node black ua uv ub))) p _ f
        black_child (black_rb (red_rb h k) (red_rb i (black_rb j l))) (simp append_assoc)
  insert_fixup-Leaves a x b (left red v s (left black g (node red ua uv ub) p)) h k
        (left_red i (left_black (red_rb j l) f)) =
      Leaves-eq _ (ap (flat p) (simp append_assoc)) (
        insert_fixup-Leaves (node black (node red a x b) v s) g (node black ua uv ub) p
          (black_rb (red_rb h k) i) (black_rb j l) f)
  insert_fixup-Leaves a x b (left red v s (right red u g p)) h k (left_red i f) = elim f [ ]
  insert_fixup-Leaves a x b (left red v s (right black leaf g p)) h k
        (left_red i (right_black leaf_rb f)) =
      finish-Leaves (node black (node red leaf g a) x (node red b v s)) p _ f black_child
        (black_rb (red_rb leaf_rb h) (red_rb k i)) (simp append_assoc)
  insert_fixup-Leaves a x b (left red v s (right black (node black ua uv ub) g p)) h k
        (left_red i (right_black (black_rb j l) f)) =
      finish-Leaves (node black (node red (node black ua uv ub) g a) x (node red b v s)) p _ f
        black_child (black_rb (red_rb (black_rb j l) h) (red_rb k i)) (simp append_assoc)
  insert_fixup-Leaves a x b (left red v s (right black (node red ua uv ub) g p)) h k
        (left_red i (right_black (red_rb j l) f)) =
      Leaves-eq _ (ap (flat p) (simp append_assoc)) (
        insert_fixup-Leaves (node black ua uv ub) g (node black (node red a x b) v s) p
          (black_rb j l) (black_rb (red_rb h k) i) f)
  insert_fixup-Leaves a x b (right red s v (left red g u p)) h k (right_red i f) = elim f [ ]
  insert_fixup-Leaves a x b (right red s v (left black g leaf p)) h k
        (right_red i (left_black leaf_rb f)) =
      finish-Leaves (node black (node red s v a) x (node red b g leaf)) p _ f black_child
        (black_rb (red_rb i h) (red_rb k leaf_rb)) (simp append_assoc)
  insert_fixup-Leaves a x b (right red s v (left black g (node black ua uv ub) p)) h k
        (right_red i (left_black (black_rb j l) f)) =
      finish-Leaves (node black (node red s v a) x (node red b g (node black ua uv ub))) p _ f
        black_child (black_rb (red_rb i h) (red_rb k (black_rb j l))) (simp append_assoc)
  insert_fixup-Leaves a x b (right red s v (left black g (node red ua uv ub) p)) h k
        (right_red i (left_black (red_rb j l) f)) =
      Leaves-eq _ (ap (flat p) (simp append_assoc)) (
        insert_fixup-Leaves (node black s v (node red a x b)) g (node black ua uv ub) p
          (black_rb i (red_rb h k)) (black_rb j l) f)
  insert_fixup-Leaves a x b (right red s v (right red u g p)) h k (right_red i f) = elim f [ ]
  insert_fixup-Leaves a x b (right red s v (right black leaf g p)) h k
        (right_red i (right_black leaf_rb f)) =
      finish-Leaves (node black (node red leaf g s) v (node red a x b)) p _ f black_child
        (black_rb (red_rb leaf_rb i) (red_rb h k)) (simp append_assoc)
  insert_fixup-Leaves a x b (right red s v (right black (node black ua uv ub) g p)) h k
        (right_red i (right_black (black_rb j l) f)) =
      finish-Leaves (node black (node red (node black ua uv ub) g s) v (node red a x b)) p _ f
        black_child (black_rb (red_rb (black_rb j l) i) (red_rb h k)) (simp append_assoc)
  insert_fixup-Leaves a x b (right red s v (right black (node red ua uv ub) g p)) h k
        (right_red i (right_black (red_rb j l) f)) =
      Leaves-eq _ (ap (flat p) (simp append_assoc)) (
        insert_fixup-Leaves (node black ua uv ub) g (node black s v (node red a x b)) p
          (black_rb j l) (black_rb i (red_rb h k)) f)
