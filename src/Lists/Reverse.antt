-- ===== src/Lists/Reverse.antt =====
-- `lists_strs_reverse` of lists.c and its loop.
use mocp.Prelude.{
  ℕ, zero, suc, ◌+◌, ◌-◌, ◌≤◌, ◌<◌, ◌≡◌, ◌≢◌, refl, ap, ◌∙◌, sym, subst, ◌⊎◌, inl, inr, Bool-cases,
  some, List, [], ◌∷◌, ltb, length, length-set, get_elem?, set, get_elem?-set_self,
  get_elem?-set_ne, arith,
}
use mocp.Bytes.{Str}
use mocp.Lists.{Strs, exchange, reverse_loop, lists_strs_reverse, lists_strs_at, lists_strs_size}

pub elem_below : (xs : List Str) (i : ℕ) → i < length xs → (x : Str) × (get_elem? xs i ≡ some x)
elem_below [] i h = elim h [ ]
elem_below (x ∷ xs) zero h = (x, refl)
elem_below (x ∷ xs) (suc i) h = elem_below xs i (omega arith)

-- the two entries changed places, the others are as before
record Exchanged (xs ys : List Str) (i j : ℕ) : Type 0 where
  size : length ys ≡ length xs
  first : get_elem? ys i ≡ get_elem? xs j
  second : get_elem? ys j ≡ get_elem? xs i
  others : (k : ℕ) → i ≢ k → j ≢ k → get_elem? ys k ≡ get_elem? xs k

exchange-set :
    (xs : List Str) (i j : ℕ) (x y : Str)
    → get_elem? xs i ≡ some x
    → get_elem? xs j ≡ some y
    → exchange xs i j ≡ set (set xs i y) j x
exchange-set xs i j x y ex ey = rw (ex, ey, exchange) refl

exchange-Exchanged :
    (xs : List Str) (i j : ℕ) → i < j → j < length xs → Exchanged xs (exchange xs i j) i j
exchange-Exchanged xs i j l h =
    let (x, ex) = elem_below xs i (omega arith) in
    let (y, ey) = elem_below xs j h in
    subst (λ ys. Exchanged xs ys i j) (sym (exchange-set xs i j x y ex ey))
      record {
        size = length-set (set xs i y) j x ∙ length-set xs i y;
        first =
            get_elem?-set_ne (set xs i y) x (λ e. absurd (omega (arith, e)))
            ∙ get_elem?-set_self xs i y (omega arith)
            ∙ sym ey;
        second = get_elem?-set_self (set xs i y) j x (omega (arith, length-set xs i y)) ∙ sym ex;
        others = λ k a b. get_elem?-set_ne (set xs i y) x b ∙ get_elem?-set_ne xs y a;
      }

-- The entries from `ix` to `iy` in reverse order, the others as before.
record Mirrored (xs ys : List Str) (ix iy : ℕ) : Type 0 where
  size : length ys ≡ length xs
  inner : (k : ℕ) → ix ≤ k → k ≤ iy → get_elem? ys k ≡ get_elem? xs (ix + iy - k)
  outer : (k : ℕ) → (k < ix) ⊎ (iy < k) → get_elem? ys k ≡ get_elem? xs k

ends_cases : (k ix iy : ℕ) → ix ≤ k → k ≤ iy → (ix ≡ k) ⊎ ((iy ≡ k) ⊎ ((ix + 1 ≤ k) × (k ≤ iy - 1)))
ends_cases k ix iy h l = grind arith

same-Mirrored : (ix iy : ℕ) (xs : List Str) → iy ≤ ix → Mirrored xs xs ix iy
same-Mirrored ix iy xs f = record {
  size = refl;
  inner = λ k a b. ap (get_elem? xs) {x = k} {y = ix + iy - k} (omega arith);
  outer = λ k o. refl;
}

-- One exchange and the rounds after it.
round-Mirrored :
    (xs ys zs : List Str) (ix iy : ℕ)
    → ix < iy
    → Exchanged xs ys ix iy
    → Mirrored ys zs (ix + 1) (iy - 1)
    → Mirrored xs zs ix iy
round-Mirrored xs ys zs ix iy l e m = record {
  size = m.size ∙ e.size;
  inner = λ k a b. elim (ends_cases k ix iy a b) [
    | inl at_first ↦
        ends k (inl (omega (arith, at_first)))
        ∙ ap (get_elem? ys) (sym at_first)
        ∙ e.first
        ∙ ap (get_elem? xs) {x = iy} {y = ix + iy - k} (omega (arith, at_first))
    | inr (inl at_last) ↦
        ends k (inr (omega (arith, at_last)))
        ∙ ap (get_elem? ys) (sym at_last)
        ∙ e.second
        ∙ ap (get_elem? xs) {x = ix} {y = ix + iy - k} (omega (arith, at_last))
    | inr (inr between) ↦
        m.inner k between.0 between.1
        ∙ ap (get_elem? ys) {x = ix + 1 + (iy - 1) - k} {y = ix + iy - k} (omega arith)
        ∙ e.others (ix + iy - k) (λ q. absurd (omega (arith, q, between)))
            (λ q. absurd (omega (arith, q, between)))
  ];
  outer = λ k o.
      ends k (further k o)
      ∙ e.others k (λ q. absurd (omega (arith, q, o))) (λ q. absurd (omega (arith, q, o)));
}
  where
    ends : (k : ℕ) → (k < ix + 1) ⊎ (iy - 1 < k) → get_elem? zs k ≡ get_elem? ys k
    ends k o = m.outer k o

    further : (k : ℕ) → (k < ix) ⊎ (iy < k) → (k < ix + 1) ⊎ (iy - 1 < k)
    further k (inl a) = inl (omega arith)
    further k (inr a) = inr (omega arith)

reverse_loop-Mirrored :
    (fuel ix iy : ℕ) (xs : List Str)
    → (ix < iy → iy < length xs)
    → iy ≤ ix + fuel
    → Mirrored xs (reverse_loop fuel ix iy xs) ix iy
unfolding reverse_loop
reverse_loop-Mirrored zero ix iy xs h f = same-Mirrored ix iy xs (omega arith)
reverse_loop-Mirrored (suc fuel) ix iy xs h f = elim (Bool-cases (ltb ix iy)) [
  | inr stop ↦ rw stop (same-Mirrored ix iy xs (ground arith))
  | inl more ↦
      let l : ix < iy = ground arith in
      let e = exchange-Exchanged xs ix iy l (h l) in
      rw more (
        round-Mirrored xs (exchange xs ix iy) _ ix iy l e (
          reverse_loop-Mirrored fuel (ix + 1) (iy - 1) (exchange xs ix iy)
            (λ q. omega (arith, e.size, h l)) (omega arith)))
]

-- After `lists_strs_reverse` the list has as many entries as before, and entry k is the one that was
-- entry k from the end.
reverse-at :
    (list : Strs)
    → (lists_strs_size (lists_strs_reverse list) ≡ lists_strs_size list)
      × ((k : ℕ)
          → k < lists_strs_size list
          → lists_strs_at (lists_strs_reverse list) k
            ≡ lists_strs_at list (lists_strs_size list - 1 - k))
unfolding lists_strs_reverse lists_strs_size lists_strs_at
reverse-at list =
    let n = length list.strs in
    let m = reverse_loop-Mirrored n 0 (n - 1) list.strs (λ l. omega arith) (omega arith) in
    (
      m.size,
      λ k h.
          m.inner k (omega arith) (omega arith)
          ∙ ap (get_elem? list.strs) {x = 0 + (n - 1) - k} {y = n - 1 - k} (omega arith),
    )
