-- ===== src/Menu/Shown.antt =====
-- menu.c: the window, the selected item and menu_driver.
use mocp.Prelude.{
  ℕ, zero, suc, ◌+◌, ◌-◌, ◌/◌, ◌<◌, ◌≤◌, min, ◌≡◌, refl, ap, false, Option, none, some, ltb, ◌==◌,
  if◌then◌else◌, arith,
}
use mocp.Prelude.Int.{pos}
use mocp.Menu.{
  MenuRequest, req_up, req_down, req_pgup, req_pgdown, req_top, req_bottom, Menu, nitems,
  get_item_relative, half_up, not_past_end, driver_down, driver_up, driver_pgdown, driver_pgup,
  driver_moves, menu_driver, at_items,
}
use mocp.Menu.Placing.{through}
use mocp.Menu.Moves.{move_next-eq, move_up}

-- Of n items, a window of h shows some from the top on, and the selected one is among them.
pub data Window (n h : ℕ) : Option ℕ → Option ℕ → Type 0 where
  blank : n ≡ 0 → Window n h none none
  shown : {t s : ℕ} → t ≤ s → s < t + h → s < n → Window n h (some t) (some s)

pub record IsShown (m : Menu) : Type 0 where
  pub room : 0 < m.height
  pub window : Window (nitems m) m.height m.top m.selected

-- the item that a request selects, of n items with s selected, in a window of h
abbrev pub selected_after : MenuRequest → ℕ → ℕ → ℕ → ℕ
selected_after req_up n h s = s - 1
selected_after req_down n h s = min (s + 1) (n - 1)
selected_after req_pgup n h s = s - (h - 1)
selected_after req_pgdown n h s = min (s + (h - 1)) (n - 1)
selected_after req_top n h s = 0
selected_after req_bottom n h s = n - 1

-- a top and a selected item as they should be, with x selected
abbrev Fine : ℕ → ℕ → ℕ → ℕ × ℕ → Type 0
Fine n h x (t, s) = t ≤ s × s < t + h × s < n × s ≡ x

module _ (m : Menu) (room : 0 < m.height) where
  pub not_past_end-eq :
      (t : ℕ)
      → not_past_end m t
        ≡ (if ltb (nitems m) (t + m.height) then nitems m - 1 - (m.height - 1) else t)
  not_past_end-eq t = ground (arith, move_up (nitems m) (nitems m - 1) (m.height - 1))

  down-Fine :
      (t s : ℕ)
      → t ≤ s
      → s < t + m.height
      → s < nitems m
      → Fine (nitems m) m.height (min (s + 1) (nitems m - 1)) (driver_down m t s)
  down-Fine t s a b c = ground (
    arith,
    not_past_end-eq (get_item_relative (nitems m) (suc s) (half_up m)),
    move_up (nitems m) (suc s) (m.height / 2),
  )

  up-Fine :
      (t s : ℕ)
      → t ≤ s
      → s < t + m.height
      → s < nitems m
      → Fine (nitems m) m.height (s - 1) (driver_up m t s)
  up-Fine t zero a b c = (a, b, c, omega arith)
  up-Fine t (suc s) a b c = ground (arith, move_up (nitems m) s (m.height / 2))

  pgdown-Fine :
      (t s : ℕ)
      → t ≤ s
      → s < t + m.height
      → s < nitems m
      → Fine (nitems m) m.height (min (s + (m.height - 1)) (nitems m - 1)) (driver_pgdown m t s)
  pgdown-Fine t s a b c = ground (
    arith,
    not_past_end-eq (get_item_relative (nitems m) t (pos (m.height - 1))),
    move_next-eq (nitems m) t (m.height - 1),
    move_next-eq (nitems m) s (m.height - 1),
    move_up (nitems m) (nitems m - 1) (m.height - 1),
  )

  pgup-Fine :
      (t s : ℕ)
      → t ≤ s
      → s < t + m.height
      → s < nitems m
      → Fine (nitems m) m.height (s - (m.height - 1)) (driver_pgup m t s)
  pgup-Fine t zero a b c = (a, b, c, omega arith)
  pgup-Fine t (suc s) a b c =
      ground (arith, move_up (nitems m) t (m.height - 1), move_up (nitems m) (suc s) (m.height - 1))

  moves-Fine :
      (req : MenuRequest) (t s : ℕ)
      → t ≤ s
      → s < t + m.height
      → s < nitems m
      → Fine (nitems m) m.height (selected_after req (nitems m) m.height s) (driver_moves req m t s)
  moves-Fine req_up t s a b c = up-Fine t s a b c
  moves-Fine req_down t s a b c = down-Fine t s a b c
  moves-Fine req_pgup t s a b c = pgup-Fine t s a b c
  moves-Fine req_pgdown t s a b c = pgdown-Fine t s a b c
  moves-Fine req_top t s a b c = ground arith
  moves-Fine req_bottom t s a b c = ground (arith, move_up (nitems m) (nitems m - 1) (m.height - 1))

-- While the selected item is shown, menu_driver follows no NULL pointer, keeps the items and
-- leaves the selected item shown: one up or down, a page up or down, the first or the last, as
-- requested, and no further than the ends.
pub menu_driver-IsShown :
    (req : MenuRequest) (m : Menu)
    → IsShown m
    → (r : Menu) × (menu_driver req m ≡ some r)
      × IsShown r
      × (r.items ≡ m.items)
      × (r.selected ≡ through (λ s. some (selected_after req (nitems m) m.height s)) m.selected)
unfolding menu_driver
menu_driver-IsShown req m h = go m.top m.selected h.window refl refl
  where
    go :
        (t s : Option ℕ)
        → Window (nitems m) m.height t s
        → m.top ≡ t
        → m.selected ≡ s
        → (r : Menu) × (menu_driver req m ≡ some r)
          × IsShown r
          × (r.items ≡ m.items)
          × (r.selected ≡ through (λ s. some (selected_after req (nitems m) m.height s)) s)
    go _ _ (blank e) et es = (m, rw e refl, h, refl, es)
    go _ _ (shown {t} {s} a b c) et es =
        let f = moves-Fine m h.room req t s a b c in
        let some_items : (nitems m == 0) ≡ false = ground arith in
        (
          at_items m (driver_moves req m t s),
          simp (some_items, et, es),
          record { room = h.room; window = shown f.0 f.1 f.2 },
          refl,
          ap some f.3,
        )
