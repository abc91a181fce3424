-- ===== src/Menu/Tests.antt =====
-- A menu of three items in a window of two, at concrete inputs.
use mocp.Prelude.{◌≡◌, refl, none, some, [], ◌∷◌, arith}
use mocp.Prelude.Int.{pos}
use mocp.Files.{f_sound}
use mocp.Menu.{
  MenuItem, Menu, align_left, req_pgdown, req_up, menu_new, menu_add, menu_driver, move_next,
  move_prev,
}
use mocp.Menu.Placing.{through}
use mocp.Menu.Shown.{shown, IsShown, selected_after, menu_driver-IsShown}
use mocp.Menu.Reach.{created, filled, Opened-IsShown}

abbrev entry : MenuItem
entry = record {
  title = 65 ∷ [];
  align = align_left;
  kind = f_sound;
  file = none;
  time = [];
  rating = [];
  format = [];
  queue_pos = pos 0;
}

abbrev three : Menu
three = record {
  items = entry ∷ entry ∷ entry ∷ [];
  top = some 1;
  selected = some 2;
  marked = none;
  posx = 0;
  posy = 0;
  width = 9;
  height = 2;
}

three-IsShown : IsShown three
three-IsShown = record {
  room = omega arith;
  window = shown (omega arith) (omega arith) (omega arith);
}

menu_driver-IsShown_example :
    (r : Menu) × (menu_driver req_up three ≡ some r)
    × IsShown r
    × (r.items ≡ three.items)
    × (r.selected ≡ through (λ s. some (selected_after req_up 3 2 s)) (some 2))
menu_driver-IsShown_example = menu_driver-IsShown req_up three three-IsShown

abbrev reread : Menu
reread = record three { top = some 0; selected = some 0 }

abbrev empty : Menu
empty = record {
  items = [];
  top = none;
  selected = none;
  marked = none;
  posx = 0;
  posy = 0;
  width = 9;
  height = 2;
}

empty_created : menu_new 0 0 9 2 ≡ some empty
unfolding menu_new
empty_created = refl

Opened-IsShown_example : IsShown (menu_add empty [] f_sound none)
Opened-IsShown_example =
    Opened-IsShown (menu_add empty [] f_sound none)
      (filled [] f_sound none (created 0 0 9 2 empty_created))

-- A page down moves by one less than the height.
pages_down : menu_driver req_pgdown reread ≡ some (record three { top = some 1; selected = some 1 })
unfolding menu_driver move_next move_prev
pages_down = refl
