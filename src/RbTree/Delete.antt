-- ===== src/RbTree/Delete.antt =====
-- The part of `rb_delete` of rbtree.c behind the search.
use mocp.Prelude.{
  ℕ, ◌≡◌, refl, sym, ◌∙◌, ap, subst, Option, List, [], ◌∷◌, ◌++◌, append_assoc, append-nil,
}
use mocp.RbTree.{
  Tree, leaf, node, Color, Way, left, right, Focus, plug, rb_min_internal, rb_next, rb_get_data,
}
use mocp.RbTree.Removal.{splice, splice_least, delete_inner, delete_at}
use mocp.RbTree.Contents.{inorder, flat, inorder-plug}
use mocp.RbTree.Balance.{
  IsRb, red_rb, black_rb, Fits, right_red, right_black, Leaves, plug-IsBalanced, Under, black_under,
}
use mocp.RbTree.Search.{parts}
use mocp.RbTree.Fixup.{delete_fixup-Leaves}

module _ {D : Type 0} where
  -- y has at most one child, x: where x is the right child, and where it is the left one
  splice_right-Leaves :
      (c : Color) (v : D) (x : Tree D) (p : Way D) {q : Option Color} {d : Color} {n : ℕ}
      → IsRb (node c leaf v x) d n
      → Fits p q n
      → Under q d
      → Leaves (splice c x p) (flat p (inorder x))
  splice_right-Leaves _ v x p (red_rb h k) f u =
      (plug x p, refl, plug-IsBalanced x f black_under k, inorder-plug x p)
  splice_right-Leaves _ v x p (black_rb h k) f u = delete_fixup-Leaves x p k f

  splice_left-Leaves :
      (c : Color) (v : D) (x : Tree D) (p : Way D) {q : Option Color} {d : Color} {n : ℕ}
      → IsRb (node c x v leaf) d n
      → Fits p q n
      → Under q d
      → Leaves (splice c x p) (flat p (inorder x))
  splice_left-Leaves _ v x p (red_rb h k) f u =
      (plug x p, refl, plug-IsBalanced x f black_under h, inorder-plug x p)
  splice_left-Leaves _ v x p (black_rb h k) f u = delete_fixup-Leaves x p h f

  -- Where rb_min_internal comes to below a focus with the path p whose data in order is xs: at a node without a
  -- left child that has the first of xs, with `rest` behind its subtree.
  data Least (xs : List D) (p : Way D) : Focus D → Type 0 where
    least :
        {c d : Color} {v : D} {b : Tree D} {s : Way D} {q : Option Color} {n : ℕ}
        → IsRb (node c leaf v b) d n
        → Fits s q n
        → Under q d
        → (rest : List D) → xs ≡ v ∷ (inorder b ++ rest)
        → ((ys : List D) → flat s ys ≡ flat p (ys ++ rest))
        → Least xs p (node c leaf v b, s)

  Least-left :
      (xs : List D) (c : Color) (v : D) (b : Tree D) (p : Way D) (f : Focus D)
      → Least xs (left c v b p) f
      → Least (xs ++ (v ∷ inorder b)) p f
  unfolding flat
  Least-left xs c v b p _ (least h f u rest e g) =
      least h f u (rest ++ (v ∷ inorder b)) (rw e (simp append_assoc))
        (λ ys. g ys ∙ ap (flat p) (append_assoc ys rest (v ∷ inorder b)))

  min_internal-Least :
      (c : Color) (a : Tree D) (v : D) (b : Tree D) (p : Way D) {q : Option Color} {d : Color}
      {n : ℕ}
      → IsRb (node c a v b) d n
      → Fits p q n
      → Under q d
      → Least (inorder (node c a v b)) p (rb_min_internal (node c a v b) p)
  unfolding rb_min_internal inorder
  min_internal-Least c leaf v b p h f u =
      least h f u [] (ap (λ z. v ∷ z) (sym (append-nil (inorder b))))
        (λ ys. ap (flat p) (sym (append-nil ys)))
  min_internal-Least c (node e x y z) v b p h f u =
      let m = parts h f u in
      Least-left (inorder (node e x y z)) c v b p _
        (min_internal-Least e x y z (left c v b p) m.left_rb m.left_fits m.left_under)

  -- another data in the parent
  refit :
      {c : Color} {l : Tree D} {v : D} (m : D) {p : Way D} {q : Option Color} {n : ℕ}
      → Fits (right c l v p) q n
      → Fits (right c l m p) q n
  refit m (right_red h f) = right_red h f
  refit m (right_black h f) = right_black h f

  -- the data found on the first walk, and the node found on the second
  delete_inner-Leaves :
      (c : Color) (l : Tree D) (r : Tree D) (p : Way D) (xs : List D) (f : Focus D) {s : Way D}
      → Least xs s f
      → ((m : D) → Least xs (right c l m p) (rb_min_internal r (right c l m p)))
      → Leaves (delete_inner c l r p (rb_get_data f)) (flat p (inorder l ++ xs))
  unfolding flat
  delete_inner-Leaves c l r p xs _ (least {v = v} {b} h f u rest e g) again =
      at (rb_min_internal r (right c l v p)) (again v)
    where
      at :
          (f : Focus D)
          → Least xs (right c l v p) f
          → Leaves (splice_least f) (flat p (inorder l ++ xs))
      at _ (least {c = c2} {v = w} {b = b2} {s = s2} h2 f2 u2 rest2 e2 g2) =
          let whole : v ∷ (inorder b2 ++ rest2) ≡ xs = cc in
          subst (Leaves (splice c2 b2 s2))
            (g2 (inorder b2) ∙ ap (λ z. flat p (inorder l ++ z)) whole)
            (splice_right-Leaves c2 w b2 s2 h2 f2 u2)

  pub delete_at-Leaves :
      (c : Color) (l : Tree D) (v : D) (r : Tree D) (p : Way D) {q : Option Color} {d : Color}
      {n : ℕ}
      → IsRb (node c l v r) d n
      → Fits p q n
      → Under q d
      → Leaves (delete_at c l v r p) (flat p (inorder l ++ inorder r))
  unfolding delete_at inorder rb_next
  delete_at-Leaves c leaf v r p h f u = splice_right-Leaves c v r p h f u
  delete_at-Leaves c (node lc la lv lb) v leaf p h f u =
      subst (Leaves (splice c (node lc la lv lb) p))
        (ap (flat p) (sym (append-nil (inorder (node lc la lv lb)))))
        (splice_left-Leaves c v (node lc la lv lb) p h f u)
  delete_at-Leaves c (node lc la lv lb) v (node rc ra rv rb) p h f u =
      let m = parts h f u in
      let down = λ (w : D).
        min_internal-Least rc ra rv rb (right c (node lc la lv lb) w p) m.right_rb
          (refit w m.right_fits) m.right_under in
      delete_inner-Leaves c (node lc la lv lb) (node rc ra rv rb) p (inorder (node rc ra rv rb)) _
        (down v) down
