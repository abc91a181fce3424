-- ===== src/RbTree/Search.antt =====
-- `rb_search` and the descent of `rb_insert` of rbtree.c.
use Prim.Native.Nat.{Ordering}
use Prim.Native.Nat.Ordering.{lt, eq, gt}
use mocp.Prelude.{
  ℕ, ◌≡◌, refl, sym, ◌∙◌, ap, subst, Option, some, none, List, [], ◌∷◌, ◌++◌, append_assoc,
  append-nil,
}
use mocp.RbTree.{Tree, leaf, node, Color, red, black, Way, left, right, Focus, Order, search_from}
use mocp.RbTree.Contents.{inorder, flat}
use mocp.RbTree.Place.{
  IsLawful, Above, IsSorted, place, place-left, place-right, place-at, Apart, IsSorted-Apart,
  Above-trans, Above-same,
}
use mocp.RbTree.Balance.{
  IsRb, red_rb, black_rb, Fits, left_red, right_red, left_black, right_black, Under, black_under,
  red_under,
}

child-Under : (d : Color) → Under (some black) d
child-Under red = red_under
child-Under black = black_under

module _ {D : Type 0} where
  -- The subtrees of a node, and the paths to them.
  pub record Parts (c : Color) (a : Tree D) (v : D) (b : Tree D) (p : Way D) : Type 0 where
    pub left_color : Color
    pub right_color : Color
    pub height : ℕ
    pub left_rb : IsRb a left_color height
    pub right_rb : IsRb b right_color height
    pub left_fits : Fits (left c v b p) (some c) height
    pub right_fits : Fits (right c a v p) (some c) height
    pub left_under : Under (some c) left_color
    pub right_under : Under (some c) right_color

  pub parts :
      {c d : Color} {a : Tree D} {v : D} {b : Tree D} {p : Way D} {q : Option Color} {n : ℕ}
      → IsRb (node c a v b) d n
      → Fits p q n
      → Under q d
      → Parts c a v b p
  parts (red_rb {n = n} h k) f red_under = record {
    left_color = black;
    right_color = black;
    height = n;
    left_rb = h;
    right_rb = k;
    left_fits = left_red k f;
    right_fits = right_red h f;
    left_under = black_under;
    right_under = black_under;
  }
  parts (black_rb {c = c} {d = d} {n = n} h k) f u = record {
    left_color = c;
    right_color = d;
    height = n;
    left_rb = h;
    right_rb = k;
    left_fits = left_black k f;
    right_fits = right_black h f;
    left_under = child-Under c;
    right_under = child-Under d;
  }

  pub same_color :
      {c d : Color} {a : Tree D} {v : D} {b : Tree D} {n : ℕ} → IsRb (node c a v b) d n → c ≡ d
  same_color (red_rb h k) = refl
  same_color (black_rb h k) = refl

-- Where the search for a key has come to: at a focus in a balanced tree, with the data `before` and `behind` it in
-- the part of the tree that was searched.
module _ {K D : Type 0} (o : Order K D) where
  -- the place of the key, given that the search ended at this subtree
  unfoldable pub around : List D → Tree D → List D → List D × Option D × List D
  unfolding inorder
  around before leaf behind = (before, none, behind)
  around before (node c a v b) behind = (before ++ inorder a, some v, inorder b ++ behind)

  pub record Reached (k : K) (xs : List D) (p : Way D) (f : Focus D) : Type 0 where
    pub color : Color
    pub parent : Option Color
    pub height : ℕ
    pub balanced : IsRb f.0 color height
    pub fits : Fits f.1 parent height
    pub under : Under parent color
    pub before : List D
    pub behind : List D
    pub placed : place o k xs ≡ around before f.0 behind
    pub inside : (ys : List D) → flat f.1 ys ≡ flat p (before ++ (ys ++ behind))

  around_more :
      (xs : List D) (t : Tree D) (ys zs : List D)
      → around xs t (ys ++ zs) ≡ ((around xs t ys).0, (around xs t ys).1, (around xs t ys).2 ++ zs)
  unfolding around
  around_more xs leaf ys zs = refl
  around_more xs (node c a v b) ys zs =
      ap (λ r. (xs ++ inorder a, some v, r)) (sym (append_assoc (inorder b) ys zs))

  around_behind :
      (ws xs : List D) (v : D) (t : Tree D) (ys : List D)
      → around (ws ++ (v ∷ xs)) t ys
        ≡ (ws ++ (v ∷ (around xs t ys).0), (around xs t ys).1, (around xs t ys).2)
  unfolding around
  around_behind ws xs v leaf ys = refl
  around_behind ws xs v (node c a u b) ys =
      ap (λ r. (r, some u, inorder b ++ ys)) (append_assoc ws (v ∷ xs) (inorder a))

  Reached-left :
      (k : K) (c : Color) (v : D) (xs : List D) (s : Tree D) (p : Way D) (f : Focus D)
      → o.cmp k (o.key v) ≡ lt
      → Reached k xs (left c v s p) f
      → Reached k (xs ++ (v ∷ inorder s)) p f
  unfolding flat
  Reached-left k c v xs s p f h r = record {
    color = r.color;
    parent = r.parent;
    height = r.height;
    balanced = r.balanced;
    fits = r.fits;
    under = r.under;
    before = r.before;
    behind = r.behind ++ (v ∷ inorder s);
    placed =
        place-left o k v xs (inorder s) h
        ∙ ap (λ z. (z.0, z.1, z.2 ++ (v ∷ inorder s))) r.placed
        ∙ sym (around_more r.before f.0 r.behind (v ∷ inorder s));
    inside = λ ys. r.inside ys ∙ ap (flat p) (simp append_assoc);
  }

  Reached-right :
      (k : K) (c : Color) (v : D) (xs : List D) (s : Tree D) (p : Way D) (f : Focus D)
      → o.cmp k (o.key v) ≡ gt
      → Above o k (inorder s)
      → Reached k xs (right c s v p) f
      → Reached k (inorder s ++ (v ∷ xs)) p f
  unfolding flat
  Reached-right k c v xs s p f h a r = record {
    color = r.color;
    parent = r.parent;
    height = r.height;
    balanced = r.balanced;
    fits = r.fits;
    under = r.under;
    before = inorder s ++ (v ∷ r.before);
    behind = r.behind;
    placed =
        place-right o k v (inorder s) xs a h
        ∙ ap (λ z. (inorder s ++ (v ∷ z.0), z.1, z.2)) r.placed
        ∙ sym (around_behind (inorder s) r.before v f.0 r.behind);
    inside = λ ys. r.inside ys ∙ ap (flat p) (simp append_assoc);
  }

  Reached-here :
      (k : K) (c : Color) (a : Tree D) (v : D) (b : Tree D) (p : Way D) {q : Option Color} {n : ℕ}
      → o.cmp k (o.key v) ≡ eq
      → Above o k (inorder a)
      → IsRb (node c a v b) c n
      → Fits p q n
      → Under q c
      → Reached k (inorder a ++ (v ∷ inorder b)) p (node c a v b, p)
  unfolding around
  Reached-here k c a v b p {q} {n} h g r f u = record {
    color = c;
    parent = q;
    height = n;
    balanced = r;
    fits = f;
    under = u;
    before = [];
    behind = [];
    placed =
        place-at o k v (inorder a) (inorder b) g h
        ∙ ap (λ z. (inorder a, some v, z)) (sym (append-nil (inorder b)));
    inside = λ ys. ap (flat p) (sym (append-nil ys));
  }

module _ {K D : Type 0} (o : Order K D) (l : IsLawful o) where
  -- The search ends at the place of the key, in a balanced tree.
  pub search_from-Reached :
      (k : K) (t : Tree D) (p : Way D) {q : Option Color} {c : Color} {n : ℕ}
      → IsSorted o (inorder t)
      → IsRb t c n
      → Fits p q n
      → Under q c
      → Reached o k (inorder t) p (search_from o k t p)
  unfolding search_from inorder place around
  search_from-Reached k leaf p {q} {c} {n} s h f u = record {
    color = c;
    parent = q;
    height = n;
    balanced = h;
    fits = f;
    under = u;
    before = [];
    behind = [];
    placed = refl;
    inside = λ ys. ap (flat p) (sym (append-nil ys));
  }
  search_from-Reached k (node c a v b) p {q} {c = d} {n} s h f u =
      split (o.cmp k (o.key v)) refl
        (search_from-Reached k a (left c v b p) apart.before m.left_rb m.left_fits m.left_under)
        (search_from-Reached k b (right c a v p) apart.behind m.right_rb m.right_fits m.right_under)
    where
      apart : Apart o v (inorder a) (inorder b)
      apart = IsSorted-Apart o v (inorder a) (inorder b) s

      m : Parts c a v b p
      m = parts h f u

      split :
          (r : Ordering)
          → o.cmp k (o.key v) ≡ r
          → Reached o k (inorder a) (left c v b p) (search_from o k a (left c v b p))
          → Reached o k (inorder b) (right c a v p) (search_from o k b (right c a v p))
          → Reached o k (inorder a ++ (v ∷ inorder b)) p (search_from o k (node c a v b) p)
      split lt e x y =
          rw (e, search_from)
            (Reached-left o k c v (inorder a) b p (search_from o k a (left c v b p)) e x)
      split gt e x y =
          rw (e, search_from)
            (Reached-right o k c v (inorder b) a p (search_from o k b (right c a v p)) e
              (Above-trans o l k v (inorder a) e apart.below) y)
      split eq e x y =
          rw (e, search_from)
            (Reached-here o k c a v b p e (Above-same o l k v (inorder a) e apart.below)
              (subst (λ z. IsRb (node c a v b) z n) (sym (same_color h)) h) f
              (subst (Under q) (sym (same_color h)) u))
