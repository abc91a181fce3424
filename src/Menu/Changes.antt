-- ===== src/Menu/Changes.antt =====
-- menu.c: the other operations that move the window or the selected item.
use mocp.Prelude.{
  ℕ, zero, suc, ◌+◌, ◌-◌, ◌/◌, ◌<◌, ◌≤◌, min, ◌≡◌, Bool-cases, inl, inr, refl, subst, sym, ◌∙◌, ap,
  true, false, ◌&&◌, Option, none, some, List, [], ◌∷◌, ltb, leb, ◌==◌, if◌then◌else◌, length,
  arith,
}
use mocp.Prelude.Int.{pos}
use mocp.Menu.{MenuItem, Menu, nitems, get_item_relative, half_up}
use mocp.Menu.Placing.{
  visible_top, visible_selected, is_outside, make_item_visible, menu_setcurritem, menu_is_visible,
  menu_set_state, menu_get_state, menu_delete, through, remove_at, renumbered, menu_update_size,
  find_by_position, or_last, past_last,
}
use mocp.Menu.Moves.{move_next-eq, move_up}
use mocp.Menu.Shown.{Window, blank, shown, IsShown, not_past_end-eq}

module _ (m : Menu) (room : 0 < m.height) where
  visible_top-around :
      (t i : ℕ) → i < nitems m → (visible_top m t i ≤ i) × (i < visible_top m t i + m.height)
  visible_top-around t i c = ground (
    arith,
    not_past_end-eq m room (get_item_relative (nitems m) i (half_up m)),
    move_up (nitems m) i (m.height / 2),
  )

-- While the selected item is shown, menu_setcurritem for an item of the menu selects it, keeps the
-- items, and moves the window so that menu_is_visible holds of it.
pub setcurritem-IsShown :
    (m : Menu) (i : ℕ)
    → IsShown m
    → i < nitems m
    → (r : Menu) × (menu_setcurritem m i ≡ some r)
      × IsShown r
      × (r.items ≡ m.items)
      × (r.selected ≡ some i)
      × (menu_is_visible r i ≡ some true)
unfolding menu_setcurritem make_item_visible menu_is_visible
setcurritem-IsShown m i h c = go m.top m.selected h.window refl
  where
    go :
        (t s : Option ℕ)
        → Window (nitems m) m.height t s
        → m.top ≡ t
        → (r : Menu) × (menu_setcurritem m i ≡ some r)
          × IsShown r
          × (r.items ≡ m.items)
          × (r.selected ≡ some i)
          × (menu_is_visible r i ≡ some true)
    go _ _ (blank e) et = ground arith
    go _ _ (shown {t} {s} a b d) et =
        let v = visible_top-around m h.room t i c in
        let seen : (leb (visible_top m t i) i && ltb i (visible_top m t i + m.height)) ≡ true =
          ground (arith, v) in
        let at-seen : is_outside m (visible_top m t i) i ≡ false = ground (arith, v) in
        (
          record m { top = some (visible_top m t i); selected = some i },
          simp (et, visible_selected, at-seen),
          record { room = h.room; window = shown v.0 v.1 c },
          refl,
          refl,
          simp seen,
        )

length-remove_at :
    (xs : List MenuItem) (i : ℕ) → i < length xs → length (remove_at xs i) ≡ length xs - 1
unfolding remove_at
length-remove_at [] i h = elim h [ ]
length-remove_at (x ∷ xs) zero h = omega arith
length-remove_at (x ∷ xs) (suc i) h = omega (arith, length-remove_at xs i)

-- the position that is left of j without the item i
slot : ℕ → ℕ → ℕ → ℕ
slot n i j = if ltb i j then j - 1 else min j (n - 1)

renumbered-slot : (n i j : ℕ) → 0 < n → i < suc n → j < suc n → renumbered n i j ≡ some (slot n i j)
unfolding slot
renumbered-slot n i j p c d = ground arith

renumbered-none : (i j : ℕ) → i < 1 → j < 1 → renumbered 0 i j ≡ none
renumbered-none i j c d = ground arith

slot-shown :
    (n h i t s : ℕ)
    → 0 < n
    → 0 < h
    → i < suc n
    → t ≤ s
    → s < t + h
    → s < suc n
    → (slot n i t ≤ slot n i s) × (slot n i s < slot n i t + h) × (slot n i s < n)
unfolding slot
slot-shown n h i t s p r c a b d = ground arith

delete-Window :
    (n h i : ℕ) (top selected : Option ℕ)
    → 0 < h
    → i < suc n
    → Window (suc n) h top selected
    → Window n h (through (renumbered n i) top) (through (renumbered n i) selected)
delete-Window n h i _ _ r c (blank e) = absurd (omega (arith, e))
delete-Window zero h i _ _ r c (shown {t} {s} a b d) =
    rw (renumbered-none i t c (omega (arith, a, d)), renumbered-none i s c d) (blank refl)
delete-Window (suc n) h i _ _ r c (shown {t} {s} a b d) =
    let f = slot-shown (suc n) h i t s (omega arith) r c a b d in
    rw
      (
        renumbered-slot (suc n) i t (omega arith) c (omega (arith, a, d)),
        renumbered-slot (suc n) i s (omega arith) c d,
      )
      (shown f.0 f.1 f.2)

pub delete-IsShown : (m : Menu) (i : ℕ) → IsShown m → i < nitems m → IsShown (menu_delete m i)
unfolding menu_delete
delete-IsShown m i h c =
    let short = length-remove_at m.items i c in
    let n : suc (length (remove_at m.items i)) ≡ nitems m = omega (arith, short, c) in
    record {
      room = h.room;
      window =
          delete-Window (length (remove_at m.items i)) m.height i m.top m.selected h.room
            (omega (arith, n, c))
            (subst (λ k. Window k m.height m.top m.selected) (sym n) h.window);
    }

pub update_size-IsShown :
    (m : Menu) (posx posy width height : ℕ)
    → IsShown m
    → 0 < width
    → 0 < height
    → (r : Menu) × (menu_update_size m posx posy width height ≡ some r)
      × IsShown r
      × (r.items ≡ m.items)
unfolding menu_update_size
update_size-IsShown m posx posy width height h a b = go m.top m.selected h.window refl refl
  where
    sized : Menu
    sized = record m { posx = posx; posy = posy; width = width; height = height }

    large : (ltb 0 width && ltb 0 height) ≡ true
    large = ground (arith, a, b)

    go :
        (t s : Option ℕ)
        → Window (nitems m) m.height t s
        → m.top ≡ t
        → m.selected ≡ s
        → (r : Menu) × (menu_update_size m posx posy width height ≡ some r)
          × IsShown r
          × (r.items ≡ m.items)
    go _ _ (blank e) et es = (
      record sized { top = none; selected = none },
      simp (large, et, es),
      record { room = b; window = blank e },
      refl,
    )
    go _ _ (shown {t} {s} x y z) et es =
        let low = move_next-eq (nitems m) t (height - 1) (omega (arith, x, z)) in
        elim (Bool-cases (leb (t + height) s)) [
          | inl k ↦ (
            record sized {
              top = some t;
              selected = some (get_item_relative (nitems m) t (pos (height - 1)));
            },
            simp (large, et, es, k),
            record {
              room = b;
              window =
                  shown (omega (arith, low, x, z)) (omega (arith, low, b, x, z))
                    (omega (arith, low, x, z));
            },
            refl,
          )
          | inr k ↦ (
            record sized { top = some t; selected = some s },
            simp (large, et, es, k),
            record { room = b; window = shown x (ground (arith, k)) z },
            refl,
          )
        ]

find-top :
    (n : Menu) (x : ℕ) (o : Option ℕ)
    → o ≡ some 0
    → x < nitems n
    → find_by_position n o (pos x) ≡ some x
find-top n x o t c = rw t (ground arith)

-- Menu_set_state on a menu of as many items, whose top is the first, brings back the top and the
-- selected item that menu_get_state took from a menu that has items and shows its selected one.
set_state-get_state :
    (m n : Menu)
    → IsShown m
    → 0 < nitems m
    → nitems n ≡ nitems m
    → n.top ≡ some 0
    → menu_set_state n (menu_get_state m) ≡ some (record n { top = m.top; selected = m.selected })
unfolding menu_set_state menu_get_state
set_state-get_state m n h p e t = go m.top m.selected h.window refl refl
  where
    go :
        (x y : Option ℕ)
        → Window (nitems m) m.height x y
        → m.top ≡ x
        → m.selected ≡ y
        → menu_set_state n (menu_get_state m) ≡ some (record n { top = x; selected = y })
    go _ _ (blank z) et es = absurd (omega arith)
    go _ _ (shown {t = x} {s = y} a b c) et es =
        let fx = find-top n x n.top t (omega (arith, a, c, e)) in
        let fy = find-top n y n.top t (omega (arith, c, e)) in
        rw (et, es)
          (ap
              (λ o. elim o [
                | some t ↦ some (record n {
                  selected = or_last n (find_by_position n n.top (pos y));
                  top = some t;
                })
                | none ↦
                    if nitems n == 0
                    then none
                    else some (record n {
                      selected = or_last n (find_by_position n n.top (pos y));
                      top = past_last n;
                    })
              ])
              fx
            ∙ ap (λ o. some (record n { selected = or_last n o; top = some x })) fy)
