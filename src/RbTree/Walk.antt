-- ===== src/RbTree/Walk.antt =====
-- `rb_min` and `rb_next` of rbtree.c: the tree from its first node on.
use mocp.Prelude.{
  ℕ, zero, suc, ◌≤◌, ◌≡◌, refl, ◌∙◌, ap, some, none, List, [], ◌∷◌, ◌++◌, append_assoc, append-nil,
  length, arith,
}
use mocp.RbTree.{
  Tree, leaf, node, Color, Way, top, left, right, Focus, rb_min_internal, rb_min, climb, rb_next,
  rb_get_data,
}
use mocp.RbTree.Contents.{inorder}

module _ {D : Type 0} where
  -- `for (x = rb_min (t); !rb_is_null (x); x = rb_next (x))`, n times at most: the data that comes by
  unfoldable pub walk : ℕ → Focus D → List D
  walk zero f = []
  walk (suc n) f = elim (rb_get_data f) [
    | none ↦ []
    | some v ↦ v ∷ elim (rb_next f) [ none ↦ [] | some g ↦ walk n g ]
  ]

  -- the data behind a subtree
  behind : Way D → List D
  behind top = []
  behind (left c v s p) = v ∷ (inorder s ++ behind p)
  behind (right c s v p) = behind p

  -- the data from a node on
  from : Focus D → List D
  from (leaf, p) = []
  from (node c a v b, p) = v ∷ (inorder b ++ behind p)

  from-climb : (x : Tree D) (p : Way D) → from (climb x p) ≡ behind p
  unfolding from climb behind
  from-climb x top = refl
  from-climb x (left c v s p) = refl
  from-climb x (right c s v p) = from-climb (node c s v x) p

  from-min_internal :
      (c : Color) (a : Tree D) (v : D) (b : Tree D) (p : Way D)
      → from (rb_min_internal (node c a v b) p) ≡ inorder (node c a v b) ++ behind p
  unfolding from rb_min_internal inorder behind
  from-min_internal c leaf v b p = refl
  from-min_internal c (node d x y z) v b p =
      from-min_internal d x y z (left c v b p) ∙ simp append_assoc

  from-next :
      (c : Color) (a : Tree D) (v : D) (b : Tree D) (p : Way D)
      → (g : Focus D) × (rb_next (node c a v b, p) ≡ some g) × (from g ≡ inorder b ++ behind p)
  unfolding from rb_next behind inorder
  from-next c a v leaf p = (climb (node c a v leaf) p, refl, from-climb (node c a v leaf) p)
  from-next c a v (node d x y z) p = (
    rb_min_internal (node d x y z) (right c a v p),
    refl,
    from-min_internal d x y z (right c a v p),
  )

  walk-from : (n : ℕ) (f : Focus D) → length (from f) ≤ n → walk n f ≡ from f
  unfolding walk from
  walk-from zero (leaf, p) h = refl
  walk-from (suc n) (leaf, p) h = refl
  walk-from zero (node c a v b, p) h = elim h [ ]
  walk-from (suc n) (node c a v b, p) h =
      let (g, e, k) = from-next c a v b p in
      rw e (ap (λ z. v ∷ z) (walk-from n g (rw k (omega (arith, h))) ∙ k))

  from-min : (t : Tree D) → from (rb_min t) ≡ inorder t
  unfolding from rb_min rb_min_internal inorder behind
  from-min leaf = refl
  from-min (node c a v b) = from-min_internal c a v b top ∙ append-nil (inorder (node c a v b))

  -- The loop from rb_min on by rb_next until rb_is_null visits every data element of a tree once, in
  -- order, and ends.
  pub walk-min : (t : Tree D) (n : ℕ) → length (inorder t) ≤ n → walk n (rb_min t) ≡ inorder t
  walk-min t n h = walk-from n (rb_min t) (rw (from-min t) h) ∙ from-min t
