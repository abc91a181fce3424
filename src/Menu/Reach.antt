-- ===== src/Menu/Reach.antt =====
-- Sequences of operations of menu.c.
use mocp.Prelude.{
  ℕ, suc, ◌<◌, ◌≡◌, Bool-cases, inl, inr, refl, subst, ◌&&◌, Option, none, some, [], ltb,
  length-append, arith,
}
use mocp.Bytes.{Str}
use mocp.Files.{FileType}
use mocp.Menu.{MenuRequest, Menu, nitems, or_first, menu_new, menu_add, menu_driver}
use mocp.Menu.Placing.{menu_setcurritem, menu_update_size, menu_delete}
use mocp.Menu.Shown.{Window, blank, shown, IsShown, menu_driver-IsShown}
use mocp.Menu.Changes.{setcurritem-IsShown, update_size-IsShown, delete-IsShown}

-- What the interface has done with a menu. An operation that fails an assertion does not return.
pub data Opened : Menu → Type 0 where
  created :
      {m : Menu} (posx posy width height : ℕ) → menu_new posx posy width height ≡ some m → Opened m
  filled :
      {m : Menu} (title : Str) (kind : FileType) (file : Option Str)
      → Opened m
      → Opened (menu_add m title kind file)
  driven : {m r : Menu} (req : MenuRequest) → Opened m → menu_driver req m ≡ some r → Opened r
  chosen : {m r : Menu} (i : ℕ) → Opened m → i < nitems m → menu_setcurritem m i ≡ some r → Opened r
  resized :
      {m r : Menu} (posx posy width height : ℕ)
      → Opened m
      → 0 < width
      → 0 < height
      → menu_update_size m posx posy width height ≡ some r
      → Opened r
  removed : {m : Menu} (i : ℕ) → Opened m → i < nitems m → Opened (menu_delete m i)

same-IsShown : (o : Option Menu) (m r : Menu) → o ≡ some m → o ≡ some r → IsShown m → IsShown r
same-IsShown o m r e f h = let same : m ≡ r = cc in subst (λ z. IsShown z) same h

abbrev fresh : ℕ → ℕ → ℕ → ℕ → Menu
fresh posx posy width height = record {
  items = [];
  top = none;
  selected = none;
  marked = none;
  posx = posx;
  posy = posy;
  width = width;
  height = height;
}

new-IsShown :
    (posx posy width height : ℕ) (m : Menu) → menu_new posx posy width height ≡ some m → IsShown m
unfolding menu_new
new-IsShown posx posy width height m e = elim (Bool-cases (ltb 0 width && ltb 0 height)) [
  | inl k ↦
      let made : menu_new posx posy width height ≡ some (fresh posx posy width height) =
        rw (menu_new, k) refl in
      same-IsShown (menu_new posx posy width height) (fresh posx posy width height) m made e
        (record { room = ground (arith, k); window = blank refl })
  | inr k ↦
      let refused : menu_new posx posy width height ≡ none = rw (menu_new, k) refl in absurd (cc)
]

add-Window :
    (n h k : ℕ) (top selected : Option ℕ)
    → 0 < h
    → k ≡ suc n
    → Window n h top selected
    → Window k h (or_first top) (or_first selected)
add-Window n h k _ _ r e (blank z) = shown (omega arith) (omega arith) (omega (arith, e))
add-Window n h k _ _ r e (shown a b c) = shown a b (omega (arith, c, e))

add-IsShown :
    (m : Menu) (title : Str) (kind : FileType) (file : Option Str)
    → IsShown m
    → IsShown (menu_add m title kind file)
unfolding menu_add
add-IsShown m title kind file h = record {
  room = h.room;
  window =
      add-Window (nitems m) m.height _ m.top m.selected h.room
        (omega (arith, length-append m.items _)) h.window;
}

-- From menu_new on, whatever items are added, selected and deleted, whatever requests menu_driver
-- gets and however the size changes: the window has a height, and the selected item is one of the
-- items it shows, or there is no item.
pub Opened-IsShown : (m : Menu) → Opened m → IsShown m
Opened-IsShown m (created posx posy width height e) = new-IsShown posx posy width height m e
Opened-IsShown _ (filled {m} title kind file o) = add-IsShown m title kind file (Opened-IsShown m o)
Opened-IsShown r (driven {m} req o e) =
    let (s, f, h, i, j) = menu_driver-IsShown req m (Opened-IsShown m o) in
    same-IsShown (menu_driver req m) s r f e h
Opened-IsShown r (chosen {m} i o c e) =
    let (s, f, h, j, k, v) = setcurritem-IsShown m i (Opened-IsShown m o) c in
    same-IsShown (menu_setcurritem m i) s r f e h
Opened-IsShown r (resized {m} posx posy width height o a b e) =
    let (s, f, h, i) = update_size-IsShown m posx posy width height (Opened-IsShown m o) a b in
    same-IsShown (menu_update_size m posx posy width height) s r f e h
Opened-IsShown _ (removed {m} i o c) = delete-IsShown m i (Opened-IsShown m o) c
