-- ===== src/Menu.antt =====
-- menu.c: a menu, a list of items of which a window shows some, one of them selected.
-- The linked list is a list, and a pointer to an item is its position, which is also its `num`. Colors, what is
-- drawn and the search tree for names are left out, so the functions here take an item where the
-- code looks it up by its file.
-- A function returns `none` where an assertion fails and where the code follows a NULL pointer.
pub mod Placing
pub mod Moves
pub mod Shown
pub mod Changes
pub mod Reach
mod Tests
use mocp.Prelude.{
  ℕ, zero, suc, ◌+◌, ◌-◌, ◌/◌, Bool, true, false, ◌&&◌, ◌||◌, Option, none, some, List, [], ◌∷◌,
  ◌++◌, ltb, leb, ◌==◌, if◌then◌else◌, length,
}
use mocp.Prelude.Int.{ℤ, pos, negsuc}
use mocp.Word.{neg_of}
use mocp.Bytes.{Str}
use mocp.Files.{FileType}

-- `enum menu_request`
pub data MenuRequest : Type 0 where
  req_up req_down req_pgup req_pgdown req_top req_bottom : MenuRequest

-- `enum menu_align`
pub data MenuAlign : Type 0 where
  align_right align_left : MenuAlign

-- `struct menu_item`
pub record MenuItem : Type 0 where
  pub title : Str
  pub align : MenuAlign
  pub kind : FileType
  pub file : Option Str
  pub time : Str
  pub rating : Str
  pub format : Str
  pub queue_pos : ℤ

-- `struct menu`
pub record Menu : Type 0 where
  pub items : List MenuItem
  pub top : Option ℕ
  pub selected : Option ℕ
  pub marked : Option ℕ
  pub posx : ℕ
  pub posy : ℕ
  pub width : ℕ
  pub height : ℕ

-- `struct menu_state`
pub record MenuState : Type 0 where
  pub top_item : ℤ
  pub selected_item : ℤ

abbrev pub nitems : Menu → ℕ
nitems m = length m.items

-- `menu->last`
abbrev pub last : Menu → Option ℕ
last m = if nitems m == 0 then none else some (nitems m - 1)

unfoldable pub menu_new : ℕ → ℕ → ℕ → ℕ → Option Menu
menu_new posx posy width height =
    if ltb 0 width && ltb 0 height
    then some (record {
      items = [];
      top = none;
      selected = none;
      marked = none;
      posx = posx;
      posy = posy;
      width = width;
      height = height;
    })
    else none

abbrev pub or_first : Option ℕ → Option ℕ
or_first none = some 0
or_first (some i) = some i

-- `menu_add`, without the insertion into the search tree
unfoldable pub menu_add : Menu → Str → FileType → Option Str → Menu
menu_add m title kind file = record m {
  items =
      m.items
      ++ (record {
        title = title;
        align = align_left;
        kind = kind;
        file = file;
        time = [];
        rating = [];
        format = [];
        queue_pos = pos 0;
      }
          ∷ []);
  top = or_first m.top;
  selected = or_first m.selected;
}

-- The loop of `get_item_relative` for a positive and for a negative `to_move`, among n items: it stops at
-- the last item and at the first.
unfoldable pub move_next : ℕ → ℕ → ℕ → ℕ
move_next n i zero = i
move_next n i (suc k) = let rest = move_next n (suc i) k in if ltb (suc i) n then rest else i

unfoldable pub move_prev : ℕ → ℕ → ℕ
move_prev i zero = i
move_prev zero (suc k) = zero
move_prev (suc i) (suc k) = move_prev i k

abbrev pub get_item_relative : ℕ → ℕ → ℤ → ℕ
get_item_relative n i (pos k) = move_next n i k
get_item_relative n i (negsuc k) = move_prev i (suc k)

-- `-menu->height / 2` and `-menu->height + 1`
abbrev pub half_up : Menu → ℤ
half_up m = neg_of (m.height / 2)

abbrev pub page_up : Menu → ℤ
page_up m = neg_of (m.height - 1)

-- `if (menu->top->num > menu->nitems - menu->height) menu->top = get_item_relative (menu->last, -menu->height + 1);`
-- for a top that is there
abbrev pub not_past_end : Menu → ℕ → ℕ
not_past_end m t =
    if ltb (nitems m) (t + m.height)
    then get_item_relative (nitems m) (nitems m - 1) (page_up m)
    else t

-- the branches of `menu_driver` for a menu with items, whose selected item is s and whose top is t
abbrev pub driver_down : Menu → ℕ → ℕ → ℕ × ℕ
driver_down m t s =
    if ltb (suc s) (nitems m)
    then (
      if leb (t + m.height) (suc s)
          then not_past_end m (get_item_relative (nitems m) (suc s) (half_up m))
          else t,
      suc s,
    )
    else (t, s)

abbrev pub driver_up : Menu → ℕ → ℕ → ℕ × ℕ
driver_up m t zero = (t, zero)
driver_up m t (suc s) = (if ltb s t then get_item_relative (nitems m) s (half_up m) else t, s)

abbrev pub driver_pgdown : Menu → ℕ → ℕ → ℕ × ℕ
driver_pgdown m t s =
    if ltb s (nitems m - 1)
    then (if ltb (s + m.height - 1) (nitems m - 1)
        then (
          not_past_end m (get_item_relative (nitems m) t (pos (m.height - 1))),
          get_item_relative (nitems m) s (pos (m.height - 1)),
        )
        else (get_item_relative (nitems m) (nitems m - 1) (page_up m), nitems m - 1))
    else (t, s)

abbrev pub driver_pgup : Menu → ℕ → ℕ → ℕ × ℕ
driver_pgup m t zero = (t, zero)
driver_pgup m t (suc s) =
    if ltb 0 (suc s + 1 - m.height)
    then (
      get_item_relative (nitems m) t (page_up m),
      get_item_relative (nitems m) (suc s) (page_up m),
    )
    else (0, 0)

abbrev pub driver_moves : MenuRequest → Menu → ℕ → ℕ → ℕ × ℕ
driver_moves req_down m t s = driver_down m t s
driver_moves req_up m t s = driver_up m t s
driver_moves req_pgdown m t s = driver_pgdown m t s
driver_moves req_pgup m t s = driver_pgup m t s
driver_moves req_top m t s = (0, 0)
driver_moves req_bottom m t s =
    (get_item_relative (nitems m) (nitems m - 1) (page_up m), nitems m - 1)

abbrev pub at_items : Menu → ℕ × ℕ → Menu
at_items m (t, s) = record m { top = some t; selected = some s }

unfoldable pub menu_driver : MenuRequest → Menu → Option Menu
menu_driver req m = if nitems m == 0 then some m else elim m.top [
  | none ↦ none
  | some t ↦ elim m.selected [ none ↦ none | some s ↦ some (at_items m (driver_moves req m t s)) ]
]
