-- ===== src/RbTree/Fixup.antt =====
-- `rb_delete_fixup` of rbtree.c: a subtree that lacks a black node, at a focus.
use mocp.Prelude.{
  ℕ, suc, ◌≡◌, refl, ◌∙◌, ap, subst, false, Option, some, none, List, ◌∷◌, ◌++◌, append_assoc,
}
use mocp.RbTree.{Tree, leaf, node, Color, red, black, Way, top, left, right, plug, paint, is_red}
use mocp.RbTree.Removal.{Settled, done, up, settle_left, settle_right, close_red, rb_delete_fixup}
use mocp.RbTree.Contents.{inorder, flat, inorder-plug, inorder-paint}
use mocp.RbTree.Balance.{
  IsRb, leaf_rb, red_rb, black_rb, Fits, left_red, right_red, left_black, right_black, black_child,
  under_black, Leaves, finish-Leaves, paint-IsBalanced, plug-IsBalanced, black_under,
}

-- the black nodes below a node of color c whose children have n
pub data Over : Color → ℕ → ℕ → Type 0 where
  over_red : {n : ℕ} → Over red n n
  over_black : {n : ℕ} → Over black n (suc n)

-- What settle_left and settle_right leave of a parent of color c over a subtree with n black nodes and a sibling
-- with one more: in its place a tree of its color with nothing lacking, or itself, balanced but for the
-- color, lacking one.
pub data Settles {D : Type 0} (c : Color) (n : ℕ) (xs : List D) : Option (Settled D) → Type 0 where
  ends :
      {t : Tree D} {m : ℕ}
      → Over c (suc n) m
      → IsRb t c m
      → inorder t ≡ xs
      → Settles c n xs (some (done t))
  goes_up :
      {a b : Tree D} {v : D}
      → IsRb (node black a v b) black (suc n)
      → inorder (node c a v b) ≡ xs
      → Settles c n xs (some (up (node c a v b)))

module _ {D : Type 0} where
  colored :
      {a b : Tree D} {v : D} (c : Color) {k : ℕ}
      → IsRb a black k
      → IsRb b black k
      → (m : ℕ) × Over c k m × IsRb (node c a v b) c m
  colored red {k} h g = (k, over_red, red_rb h g)
  colored black {k} h g = (suc k, over_black, black_rb h g)

  unequal :
      {X : Type 0} {a b : Tree D} {v : D} {n : ℕ} {d e : Color}
      → IsRb {D = D} leaf d n
      → IsRb (node black a v b) e n
      → X
  unequal leaf_rb j = elim j [ ]

  settle_left-Settles :
      (x : Tree D) (c : Color) (v : D) (a : Tree D) (y : D) (b : Tree D) {n : ℕ} {d e : Color}
      → IsRb x black n
      → IsRb a d n
      → IsRb b e n
      → Settles c n
          (inorder x ++ (v ∷ (inorder a ++ (y ∷ inorder b))))
          (settle_left x c v (node black a y b))
  unfolding settle_left inorder
  settle_left-Settles x c v leaf y leaf hx leaf_rb leaf_rb =
      goes_up (black_rb hx (red_rb leaf_rb leaf_rb)) refl
  settle_left-Settles x c v leaf y (node black ra rv rb) hx i j = unequal i j
  settle_left-Settles x c v leaf y (node red ra rv rb) hx leaf_rb (red_rb rh rk) =
      let (m, o, t) =
        colored {a = node black x v leaf} {b = (node black ra rv rb)} {v = y} c
          (black_rb hx leaf_rb) (black_rb rh rk) in
      ends o t (simp append_assoc)
  settle_left-Settles x c v (node black la lv lb) y (node black ra rv rb) hx (black_rb lh lk)
        (black_rb rh rk) =
      goes_up (black_rb hx (red_rb (black_rb lh lk) (black_rb rh rk))) refl
  settle_left-Settles x c v (node black la lv lb) y (node red ra rv rb) hx (black_rb lh lk)
        (red_rb rh rk) =
      let (m, o, t) =
        colored {a = node black x v (node black la lv lb)} {b = (node black ra rv rb)} {v = y} c
          (black_rb hx (black_rb lh lk)) (black_rb rh rk) in
      ends o t (simp append_assoc)
  settle_left-Settles x c v (node black la lv lb) y leaf hx i j = unequal j i
  settle_left-Settles x c v (node red la lv lb) y leaf hx (red_rb lh lk) leaf_rb =
      let (m, o, t) =
        colored {a = node black x v la} {b = node black lb y leaf} {v = lv} c (black_rb hx lh)
          (black_rb lk leaf_rb) in
      ends o t (simp append_assoc)
  settle_left-Settles x c v (node red la lv lb) y (node black ra rv rb) hx (red_rb lh lk)
        (black_rb rh rk) =
      let (m, o, t) =
        colored {a = node black x v la} {b = node black lb y (node black ra rv rb)} {v = lv} c
          (black_rb hx lh) (black_rb lk (black_rb rh rk)) in
      ends o t (simp append_assoc)
  settle_left-Settles x c v (node red la lv lb) y (node red ra rv rb) hx (red_rb lh lk)
        (red_rb rh rk) =
      let (m, o, t) =
        colored {a = node black x v (node red la lv lb)} {b = (node black ra rv rb)} {v = y} c
          (black_rb hx (red_rb lh lk)) (black_rb rh rk) in
      ends o t (simp append_assoc)

  settle_right-Settles :
      (x : Tree D) (c : Color) (v : D) (a : Tree D) (y : D) (b : Tree D) {n : ℕ} {d e : Color}
      → IsRb x black n
      → IsRb a d n
      → IsRb b e n
      → Settles c n
          ((inorder a ++ (y ∷ inorder b)) ++ (v ∷ inorder x))
          (settle_right x c v (node black a y b))
  unfolding settle_right inorder
  settle_right-Settles x c v leaf y leaf hx leaf_rb leaf_rb =
      goes_up (black_rb (red_rb leaf_rb leaf_rb) hx) refl
  settle_right-Settles x c v leaf y (node black ra rv rb) hx i j = unequal i j
  settle_right-Settles x c v leaf y (node red ra rv rb) hx leaf_rb (red_rb rh rk) =
      let (m, o, t) =
        colored {a = node black leaf y ra} {b = node black rb v x} {v = rv} c (black_rb leaf_rb rh)
          (black_rb rk hx) in
      ends o t (simp append_assoc)
  settle_right-Settles x c v (node black la lv lb) y (node black ra rv rb) hx (black_rb lh lk)
        (black_rb rh rk) =
      goes_up (black_rb (red_rb (black_rb lh lk) (black_rb rh rk)) hx) refl
  settle_right-Settles x c v (node black la lv lb) y (node red ra rv rb) hx (black_rb lh lk)
        (red_rb rh rk) =
      let (m, o, t) =
        colored {a = node black (node black la lv lb) y ra} {b = node black rb v x} {v = rv} c
          (black_rb (black_rb lh lk) rh) (black_rb rk hx) in
      ends o t (simp append_assoc)
  settle_right-Settles x c v (node black la lv lb) y leaf hx i j = unequal j i
  settle_right-Settles x c v (node red la lv lb) y leaf hx (red_rb lh lk) leaf_rb =
      let (m, o, t) =
        colored {a = (node black la lv lb)} {b = node black leaf v x} {v = y} c (black_rb lh lk)
          (black_rb leaf_rb hx) in
      ends o t (simp append_assoc)
  settle_right-Settles x c v (node red la lv lb) y (node black ra rv rb) hx (red_rb lh lk)
        (black_rb rh rk) =
      let (m, o, t) =
        colored {a = (node black la lv lb)} {b = node black (node black ra rv rb) v x} {v = y} c
          (black_rb lh lk) (black_rb (black_rb rh rk) hx) in
      ends o t (simp append_assoc)
  settle_right-Settles x c v (node red la lv lb) y (node red ra rv rb) hx (red_rb lh lk)
        (red_rb rh rk) =
      let (m, o, t) =
        colored {a = (node black la lv lb)} {b = node black (node red ra rv rb) v x} {v = y} c
          (black_rb lh lk) (black_rb (red_rb rh rk) hx) in
      ends o t (simp append_assoc)

  -- A red node takes what is lacking: it becomes black.
  blackened-Leaves :
      (a : Tree D) (v : D) (b : Tree D) (p : Way D) {q : Option Color} {n : ℕ} {xs : List D}
      → IsRb (node black a v b) black n
      → Fits p q n
      → inorder (node red a v b) ≡ xs
      → Leaves (some (plug (node black a v b) p)) (flat p xs)
  unfolding inorder
  blackened-Leaves a v b p h f e = (
    plug (node black a v b) p,
    refl,
    plug-IsBalanced (node black a v b) f black_under h,
    inorder-plug (node black a v b) p ∙ ap (flat p) e,
  )

  -- what the loop ends with under a parent that has become red
  close_red-Leaves :
      (o : Option (Settled D)) (p : Way D) {n : ℕ} {xs : List D}
      → Settles red n xs o
      → Fits p (some black) (suc n)
      → Leaves (close_red o p) (flat p xs)
  close_red-Leaves _ p {xs = xs} (ends {t = t} over_red h e) f =
      finish-Leaves t p xs f under_black h e
  close_red-Leaves _ p (goes_up {a = a} {b = b} {v = v} h e) f = blackened-Leaves a v b p h f e

  fixup_red :
      (a : Tree D) (v : D) (b : Tree D) (p : Way D)
      → rb_delete_fixup (node red a v b) p ≡ some (plug (node black a v b) p)
  unfolding rb_delete_fixup plug
  fixup_red a v b top = refl
  fixup_red a v b (left c u w p) = refl
  fixup_red a v b (right c w u p) = refl

  -- one turn of the loop and what follows it
  turn : Option (Settled D) → Way D → Option (Tree D)
  turn o p = elim o [
    | none ↦ none
    | some (done t) ↦ some (paint black (plug t p))
    | some (up t) ↦ rb_delete_fixup t p
  ]

  turn_red-Leaves :
      (o : Option (Settled D)) (p : Way D) {n : ℕ} {xs : List D}
      → Settles red n xs o
      → Fits p (some black) (suc n)
      → Leaves (turn o p) (flat p xs)
  unfolding turn
  turn_red-Leaves _ p {xs = xs} (ends {t = t} over_red h e) f =
      finish-Leaves t p xs f under_black h e
  turn_red-Leaves _ p (goes_up {a = a} {b = b} {v = v} h e) f =
      rw (fixup_red a v b p) (blackened-Leaves a v b p h f e)

  turn_black-Leaves :
      (o : Option (Settled D)) (p : Way D) {q : Option Color} {n : ℕ} {xs : List D}
      → ((t : Tree D) → IsRb t black (suc n) → Leaves (rb_delete_fixup t p) (flat p (inorder t)))
      → Settles black n xs o
      → Fits p q (suc (suc n))
      → Leaves (turn o p) (flat p xs)
  unfolding turn
  turn_black-Leaves _ p {xs = xs} go (ends {t = t} over_black h e) f =
      finish-Leaves t p xs f black_child h e
  turn_black-Leaves _ p go (goes_up {a = a} {b = b} {v = v} h e) f =
      subst (λ z. Leaves (rb_delete_fixup (node black a v b) p) (flat p z)) e
        (go (node black a v b) h)

  is_red-black : (x : Tree D) {n : ℕ} → IsRb x black n → is_red x ≡ false
  is_red-black _ leaf_rb = refl
  is_red-black _ (black_rb h k) = refl

  -- the loop at a black x that is a left child
  under_left-Leaves :
      (x : Tree D) (c : Color) (v : D) (w : Tree D) (p : Way D) {q : Option Color} {n : ℕ}
      → IsRb x black n
      → Fits (left c v w p) q (suc n)
      → ((t : Tree D) (r : Option Color)
          → IsRb t black (suc n)
          → Fits p r (suc (suc n))
          → Leaves (rb_delete_fixup t p) (flat p (inorder t)))
      → Leaves (rb_delete_fixup x (left c v w p)) (flat p (inorder x ++ (v ∷ inorder w)))
  unfolding turn inorder rb_delete_fixup flat
  under_left-Leaves x red v leaf p h (left_red i f) go = elim i [ ]
  under_left-Leaves x red v (node red a y b) p h (left_red i f) go = elim i [ ]
  under_left-Leaves x black v leaf p h (left_black i f) go = elim i [ ]
  under_left-Leaves x black v (node red leaf y b) p h (left_black (red_rb i k) f) go = elim i [ ]
  under_left-Leaves x black v (node red (node red d u e) y b) p h (left_black (red_rb i k) f) go =
      elim i [ ]
  under_left-Leaves x red v (node black a y b) p h (left_red (black_rb i j) f) go =
      rw (is_red-black x h, rb_delete_fixup)
        (turn_red-Leaves (settle_left x red v (node black a y b)) p
          (settle_left-Settles x red v a y b h i j) f)
  under_left-Leaves x black v (node black a y b) p h (left_black (black_rb i j) f) go =
      rw (is_red-black x h, rb_delete_fixup)
        (turn_black-Leaves (settle_left x black v (node black a y b)) p (λ t g. go t _ g f)
          (settle_left-Settles x black v a y b h i j) f)
  under_left-Leaves x black v (node red (node black d u e) y b) p h
        (left_black (red_rb (black_rb i j) k) f) go =
      rw (is_red-black x h, rb_delete_fixup)
        (subst (Leaves (close_red (settle_left x red v (node black d u e)) (left black y b p)))
          (ap (flat p) (simp append_assoc))
          (close_red-Leaves (settle_left x red v (node black d u e)) (left black y b p)
            (settle_left-Settles x red v d u e h i j) (left_black k f)))

  -- the loop at a black x that is a right child
  under_right-Leaves :
      (x : Tree D) (c : Color) (v : D) (w : Tree D) (p : Way D) {q : Option Color} {n : ℕ}
      → IsRb x black n
      → Fits (right c w v p) q (suc n)
      → ((t : Tree D) (r : Option Color)
          → IsRb t black (suc n)
          → Fits p r (suc (suc n))
          → Leaves (rb_delete_fixup t p) (flat p (inorder t)))
      → Leaves (rb_delete_fixup x (right c w v p)) (flat p (inorder w ++ (v ∷ inorder x)))
  unfolding turn inorder rb_delete_fixup flat
  under_right-Leaves x red v leaf p h (right_red i f) go = elim i [ ]
  under_right-Leaves x red v (node red a y b) p h (right_red i f) go = elim i [ ]
  under_right-Leaves x black v leaf p h (right_black i f) go = elim i [ ]
  under_right-Leaves x black v (node red a y leaf) p h (right_black (red_rb k i) f) go = elim i [ ]
  under_right-Leaves x black v (node red a y (node red d u e)) p h (right_black (red_rb k i) f) go =
      elim i [ ]
  under_right-Leaves x red v (node black a y b) p h (right_red (black_rb i j) f) go =
      rw (is_red-black x h, rb_delete_fixup)
        (turn_red-Leaves (settle_right x red v (node black a y b)) p
          (settle_right-Settles x red v a y b h i j) f)
  under_right-Leaves x black v (node black a y b) p h (right_black (black_rb i j) f) go =
      rw (is_red-black x h, rb_delete_fixup)
        (turn_black-Leaves (settle_right x black v (node black a y b)) p (λ t g. go t _ g f)
          (settle_right-Settles x black v a y b h i j) f)
  under_right-Leaves x black v (node red a y (node black d u e)) p h
        (right_black (red_rb k (black_rb i j)) f) go =
      rw (is_red-black x h, rb_delete_fixup)
        (subst (Leaves (close_red (settle_right x red v (node black d u e)) (right black a y p)))
          (ap (flat p) (simp append_assoc))
          (close_red-Leaves (settle_right x red v (node black d u e)) (right black a y p)
            (settle_right-Settles x red v d u e h i j) (right_black k f)))

  -- A subtree that lacks a black node, at a focus: the loop ends with a balanced tree with the same data in order.
  pub delete_fixup-Leaves :
      (x : Tree D) (p : Way D) {q : Option Color} {c : Color} {n : ℕ}
      → IsRb x c n
      → Fits p q (suc n)
      → Leaves (rb_delete_fixup x p) (flat p (inorder x))
  unfolding rb_delete_fixup flat inorder
  delete_fixup-Leaves x top h f = (paint black x, refl, paint-IsBalanced h, inorder-paint black x)
  delete_fixup-Leaves (node red a v b) (left c u w p) (red_rb h k) f =
      blackened-Leaves a v b (left c u w p) (black_rb h k) f refl
  delete_fixup-Leaves (node red a v b) (right c w u p) (red_rb h k) f =
      blackened-Leaves a v b (right c w u p) (black_rb h k) f refl
  delete_fixup-Leaves leaf (left c u w p) leaf_rb f =
      under_left-Leaves leaf c u w p leaf_rb f (λ t r h g. delete_fixup-Leaves t p h g)
  delete_fixup-Leaves (node black a v b) (left c u w p) (black_rb h k) f =
      under_left-Leaves (node black a v b) c u w p (black_rb h k) f
        (λ t r i g. delete_fixup-Leaves t p i g)
  delete_fixup-Leaves leaf (right c w u p) leaf_rb f =
      under_right-Leaves leaf c u w p leaf_rb f (λ t r h g. delete_fixup-Leaves t p h g)
  delete_fixup-Leaves (node black a v b) (right c w u p) (black_rb h k) f =
      under_right-Leaves (node black a v b) c u w p (black_rb h k) f
        (λ t r i g. delete_fixup-Leaves t p i g)
