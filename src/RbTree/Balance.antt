-- ===== src/RbTree/Balance.antt =====
-- The invariant of the trees of rbtree.c: a red node has black children, and every way down has as many
-- black nodes.
use mocp.Prelude.{ℕ, zero, suc, ◌≡◌, refl, ◌∙◌, ap, Option, some, none, List}
use mocp.RbTree.{Tree, leaf, node, Color, red, black, Way, top, left, right, plug, paint, finish}
use mocp.RbTree.Contents.{inorder, flat, inorder-plug, inorder-paint}

-- A tree whose root has the color c and that has n black nodes on every way down.
pub data IsRb {D : Type 0} : Tree D → Color → ℕ → Type 0 where
  leaf_rb : IsRb leaf black zero
  red_rb :
      {a b : Tree D} {v : D} {n : ℕ} → IsRb a black n → IsRb b black n → IsRb (node red a v b) red n
  black_rb :
      {a b : Tree D} {v : D} {c d : Color} {n : ℕ}
      → IsRb a c n
      → IsRb b d n
      → IsRb (node black a v b) black (suc n)

-- A path up from a focus that wants a tree with n black nodes, and the color of the parent, if there is one.
pub data Fits {D : Type 0} : Way D → Option Color → ℕ → Type 0 where
  fits_top : {n : ℕ} → Fits top none n
  left_red :
      {v : D} {s : Tree D} {p : Way D} {n : ℕ}
      → IsRb s black n
      → Fits p (some black) n
      → Fits (left red v s p) (some red) n
  right_red :
      {v : D} {s : Tree D} {p : Way D} {n : ℕ}
      → IsRb s black n
      → Fits p (some black) n
      → Fits (right red s v p) (some red) n
  left_black :
      {v : D} {s : Tree D} {p : Way D} {d : Color} {q : Option Color} {n : ℕ}
      → IsRb s d n
      → Fits p q (suc n)
      → Fits (left black v s p) (some black) n
  right_black :
      {v : D} {s : Tree D} {p : Way D} {d : Color} {q : Option Color} {n : ℕ}
      → IsRb s d n
      → Fits p q (suc n)
      → Fits (right black s v p) (some black) n

-- a red node does not come under a red parent
pub data May : Option Color → Color → Type 0 where
  black_child : {q : Option Color} → May q black
  at_root : {c : Color} → May none c
  under_black : {c : Color} → May (some black) c

-- a red node has a black parent
pub data Under : Option Color → Color → Type 0 where
  black_under : {q : Option Color} → Under q black
  red_under : Under (some black) red

module _ {D : Type 0} where
  abbrev pub IsBalanced : Tree D → Type 0
  IsBalanced t = (n : ℕ) × IsRb t black n

  -- what an operation leaves: a balanced tree with the data xs in order
  abbrev pub Leaves : Option (Tree D) → List D → Type 0
  Leaves o xs = (r : Tree D) × (o ≡ some r) × IsBalanced r × (inorder r ≡ xs)

  pub paint-IsBalanced : {t : Tree D} {c : Color} {n : ℕ} → IsRb t c n → IsBalanced (paint black t)
  paint-IsBalanced (leaf_rb) = (zero, leaf_rb)
  paint-IsBalanced (red_rb {n = n} h k) = (suc n, black_rb h k)
  paint-IsBalanced (black_rb {n = n} h k) = (suc n, black_rb h k)

  pub plug-IsRb :
      (t : Tree D) {p : Way D} {q : Option Color} {c : Color} {n : ℕ}
      → Fits p q n
      → May q c
      → IsRb t c n
      → (d : Color) × (m : ℕ) × IsRb (plug t p) d m
  unfolding plug
  plug-IsRb t {c = c} {n = n} fits_top m h = (c, n, h)
  plug-IsRb t (left_red {v} {s} g f) black_child h =
      plug-IsRb (node red t v s) f under_black (red_rb h g)
  plug-IsRb t (right_red {v} {s} g f) black_child h =
      plug-IsRb (node red s v t) f under_black (red_rb g h)
  plug-IsRb t (left_black {v} {s} g f) m h =
      plug-IsRb (node black t v s) f black_child (black_rb h g)
  plug-IsRb t (right_black {v} {s} g f) m h =
      plug-IsRb (node black s v t) f black_child (black_rb g h)

  -- the end of a fixup
  pub finish-Leaves :
      (t : Tree D) (p : Way D) {q : Option Color} {c : Color} {n : ℕ} (xs : List D)
      → Fits p q n
      → May q c
      → IsRb t c n
      → inorder t ≡ xs
      → Leaves (finish (some t) p) (flat p xs)
  finish-Leaves t p xs f m h e = (
    paint black (plug t p),
    refl,
    paint-IsBalanced (plug-IsRb t f m h).2,
    inorder-paint black (plug t p) ∙ inorder-plug t p ∙ ap (flat p) e,
  )

  pub plug-IsBalanced :
      (t : Tree D) {p : Way D} {q : Option Color} {c : Color} {n : ℕ}
      → Fits p q n
      → Under q c
      → IsRb t c n
      → IsBalanced (plug t p)
  unfolding plug
  plug-IsBalanced t {n = n} fits_top black_under h = (n, h)
  plug-IsBalanced t (left_red {v} {s} g f) black_under h =
      plug-IsBalanced (node red t v s) f red_under (red_rb h g)
  plug-IsBalanced t (right_red {v} {s} g f) black_under h =
      plug-IsBalanced (node red s v t) f red_under (red_rb g h)
  plug-IsBalanced t (left_black {v} {s} g f) m h =
      plug-IsBalanced (node black t v s) f black_under (black_rb h g)
  plug-IsBalanced t (right_black {v} {s} g f) m h =
      plug-IsBalanced (node black s v t) f black_under (black_rb g h)
