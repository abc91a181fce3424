-- ===== src/Menu/Placing.antt =====
-- menu.c: changes of the size, the selected item chosen from outside, the saved state, and deletion.
use mocp.Prelude.{
  ℕ, zero, suc, ◌+◌, ◌-◌, Bool, ◌&&◌, ◌||◌, Option, none, some, List, [], ◌∷◌, ltb, leb, ◌==◌,
  if◌then◌else◌, length,
}
use mocp.Prelude.Int.{ℤ, pos, negsuc}
use mocp.Menu.{MenuItem, Menu, MenuState, nitems, last, get_item_relative, half_up, not_past_end}

-- `menu_update_size`
unfoldable pub menu_update_size : Menu → ℕ → ℕ → ℕ → ℕ → Option Menu
menu_update_size m posx posy width height =
    if ltb 0 width && ltb 0 height
    then some (
        fit (record m { posx = posx; posy = posy; width = width; height = height }) m.top
          m.selected)
    else none
  where
    fit : Menu → Option ℕ → Option ℕ → Menu
    fit r none s = r
    fit r (some t) none = r
    fit r (some t) (some s) =
        if leb (t + r.height) s
        then record r { selected = some (get_item_relative (nitems r) t (pos (r.height - 1))) }
        else r

-- the item is outside of the window whose top is t
abbrev pub is_outside : Menu → ℕ → ℕ → Bool
is_outside m t i = ltb i t || leb (t + m.height) i

-- `menu_is_visible`
unfoldable pub menu_is_visible : Menu → ℕ → Option Bool
menu_is_visible m i = elim m.top [ none ↦ none | some t ↦ some (leb t i && ltb i (t + m.height)) ]

-- the top that `make_item_visible` sets
abbrev pub visible_top : Menu → ℕ → ℕ → ℕ
visible_top m t i =
    if is_outside m t i then not_past_end m (get_item_relative (nitems m) i (half_up m)) else t

abbrev pub visible_selected : Menu → ℕ → ℕ → Option ℕ → Option ℕ
visible_selected m t i none = none
visible_selected m t i (some s) = if is_outside m t s then some i else some s

-- `make_item_visible` for the item i
unfoldable pub make_item_visible : Menu → ℕ → Option Menu
make_item_visible m i = elim m.top [
  | none ↦ none
  | some t ↦ some (record m {
    top = some (visible_top m t i);
    selected = visible_selected m (visible_top m t i) i m.selected;
  })
]

unfoldable pub menu_setcurritem : Menu → ℕ → Option Menu
menu_setcurritem m i = make_item_visible (record m { selected = some i }) i

-- `menu_find_by_position`: from the top on
abbrev pub find_by_position : Menu → Option ℕ → ℤ → Option ℕ
find_by_position m none num = none
find_by_position m (some t) (negsuc n) = none
find_by_position m (some t) (pos i) = if leb t i && ltb i (nitems m) then some i else none

-- `get_item_relative (menu->last, menu->height + 1)`, where there is a last item
abbrev pub past_last : Menu → Option ℕ
past_last m =
    if nitems m == 0
    then none
    else some (get_item_relative (nitems m) (nitems m - 1) (pos (m.height + 1)))

abbrev pub or_last : Menu → Option ℕ → Option ℕ
or_last m none = last m
or_last m (some s) = some s

-- `menu_set_state`; without items it passes NULL to `get_item_relative`, whose assertion fails.
unfoldable pub menu_set_state : Menu → MenuState → Option Menu
menu_set_state m st =
    let chosen = or_last m (find_by_position m m.top st.selected_item) in
    elim (find_by_position m m.top st.top_item) [
      | some t ↦ some (record m { selected = chosen; top = some t })
      | none ↦
          if nitems m == 0 then none else some (record m { selected = chosen; top = past_last m })
    ]

abbrev pub or_minus_one : Option ℕ → ℤ
or_minus_one none = negsuc 0
or_minus_one (some i) = pos i

-- `menu_get_state`
unfoldable pub menu_get_state : Menu → MenuState
menu_get_state m = record { top_item = or_minus_one m.top; selected_item = or_minus_one m.selected }

-- `menu_unmark_item`
unfoldable pub menu_unmark_item : Menu → Menu
menu_unmark_item m = record m { marked = none }

-- the list without the item i
unfoldable pub remove_at : List MenuItem → ℕ → List MenuItem
remove_at [] i = []
remove_at (x ∷ xs) zero = xs
remove_at (x ∷ xs) (suc i) = x ∷ remove_at xs i

-- Where the item at j is once the item i is gone: where j is i, at the next one, or the one before if it
-- was the last, with n items left.
abbrev pub renumbered : ℕ → ℕ → ℕ → Option ℕ
renumbered n i j =
    if ltb i j
    then some (j - 1)
    else if ltb j i
    then some j
    else if ltb i n
    then some i
    else if n == 0
    then none
    else some (n - 1)

-- `menu->marked`, which becomes NULL when it is the item
abbrev pub mark_without : ℕ → ℕ → Option ℕ
mark_without i j = if ltb i j then some (j - 1) else if ltb j i then some j else none

abbrev pub through : (ℕ → Option ℕ) → Option ℕ → Option ℕ
through f none = none
through f (some j) = f j

-- `menu_delete` of the item i, which is on the menu, without the deletion from the search tree
unfoldable pub menu_delete : Menu → ℕ → Menu
menu_delete m i =
    let rest = remove_at m.items i in
    record m {
      items = rest;
      top = through (renumbered (length rest) i) m.top;
      selected = through (renumbered (length rest) i) m.selected;
      marked = through (mark_without i) m.marked;
    }
