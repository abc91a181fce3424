-- ===== src/Playlist/Walk.antt =====
-- Walking over the playlist: which item `plist_next`, `plist_prev` and `plist_last` find.
use mocp.Prelude.{
  ℕ, zero, suc, ◌+◌, ◌-◌, ◌≤◌, ◌<◌, ◌≡◌, refl, ap, ◌∙◌, sym, ◌⊎◌, inl, inr, true, false, Bool-cases,
  List, [], ◌∷◌, ltb, ◌==◌, if◌then◌else◌, length, drop, length-drop, arith,
}
use mocp.Prelude.Int.{ℤ, pos, pos_part}
use mocp.Item.{PlistItem}
use mocp.Playlist.{
  Plist, num, minus_one, deleted_at, skip_deleted, after, plist_next, skip_back, plist_prev,
  last_from, plist_last,
}

-- The first item from `start` on that is not deleted, or -1 if there is none.
pub data FirstFrom (items : List PlistItem) (start : ℕ) : ℤ → Type 0 where
  found :
      (i : ℕ)
      → start ≤ i
      → i < length items
      → deleted_at items i ≡ false
      → ((j : ℕ) → start ≤ j → j < i → deleted_at items j ≡ true)
      → FirstFrom items start (pos i)
  none_left :
      ((j : ℕ) → start ≤ j → j < length items → deleted_at items j ≡ true)
      → FirstFrom items start minus_one

-- The last item before `stop` that is not deleted, or -1 if there is none.
pub data LastBefore (items : List PlistItem) (stop : ℕ) : ℤ → Type 0 where
  found :
      (i : ℕ)
      → i < stop
      → deleted_at items i ≡ false
      → ((j : ℕ) → i < j → j < stop → deleted_at items j ≡ true)
      → LastBefore items stop (pos i)
  none_left : ((j : ℕ) → j < stop → deleted_at items j ≡ true) → LastBefore items stop minus_one

-- how many items the loop of `plist_next` skips
skip_count : List PlistItem → ℕ
skip_count [] = 0
skip_count (item ∷ rest) = if item.deleted then suc (skip_count rest) else 0

skip_deleted-eq : (rest : List PlistItem) (i : ℕ) → skip_deleted rest i ≡ i + skip_count rest
unfolding skip_deleted skip_count
skip_deleted-eq [] i = omega arith
skip_deleted-eq (item ∷ rest) i = ground (arith, skip_deleted-eq rest (suc i))

skip_count_within : (rest : List PlistItem) → skip_count rest ≤ length rest
unfolding skip_count
skip_count_within [] = omega arith
skip_count_within (item ∷ rest) = ground (arith, skip_count_within rest)

skip_count_live :
    (rest : List PlistItem)
    → skip_count rest < length rest
    → deleted_at rest (skip_count rest) ≡ false
unfolding skip_count
skip_count_live [] h = elim h [ ]
skip_count_live (item ∷ rest) h = ground (arith, skip_count_live rest)

skip_count_skipped :
    (rest : List PlistItem) (j : ℕ) → j < skip_count rest → deleted_at rest j ≡ true
unfolding skip_count
skip_count_skipped [] j h = absurd (omega arith)
skip_count_skipped (item ∷ rest) zero h = ground arith
skip_count_skipped (item ∷ rest) (suc j) h = ground (arith, skip_count_skipped rest j)

pub deleted_at-drop :
    (items : List PlistItem) (s j : ℕ) → deleted_at (drop s items) j ≡ deleted_at items (s + j)
deleted_at-drop items zero j = ap (deleted_at items) (omega arith)
deleted_at-drop [] (suc s) j = refl
deleted_at-drop (x ∷ items) (suc s) j =
    deleted_at-drop items s j ∙ ap (deleted_at (x ∷ items)) {x = suc (s + j)} (omega arith)

-- `plist_next` returns the first item behind `n` that is not deleted, or the first of all for -1, and
-- -1 exactly when there is none.
pub plist_next-FirstFrom : (p : Plist) (n : ℤ) → FirstFrom p.items (after n) (plist_next p n)
unfolding plist_next
plist_next-FirstFrom p n = elim (Bool-cases (ltb i (num p))) [
  | inl inside ↦ rw inside (
      found i (omega (arith, stop)) (ground arith) (ground (arith, stop, live))
        λ j h l. skipped j h (omega (arith, stop)))
  | inr outside ↦ rw outside (none_left λ j h l. skipped j h (ground (arith, stop)))
]
  where
    start : ℕ
    start = after n

    rest : List PlistItem
    rest = drop start p.items

    i : ℕ
    i = skip_deleted rest start

    stop : i ≡ start + skip_count rest
    stop = skip_deleted-eq rest start

    live : i < num p → deleted_at p.items i ≡ false
    live h =
        ap (deleted_at p.items) stop
        ∙ sym (deleted_at-drop p.items start (skip_count rest))
        ∙ skip_count_live rest (omega (arith, stop, length-drop start p.items))

    skipped : (j : ℕ) → start ≤ j → j < start + skip_count rest → deleted_at p.items j ≡ true
    skipped j h l =
        ap (deleted_at p.items) {y = start + (j - start)} (omega arith)
        ∙ sym (deleted_at-drop p.items start (j - start))
        ∙ skip_count_skipped rest (j - start) (omega arith)

lt_suc_cases : (j i : ℕ) → j < suc i → (j < i) ⊎ (j ≡ i)
lt_suc_cases j i h = grind arith

skip_back-LastBefore :
    (items : List PlistItem) (stop : ℕ) → LastBefore items stop (skip_back items stop)
unfolding skip_back
skip_back-LastBefore items zero = none_left (λ j h. elim h [ ])
skip_back-LastBefore items (suc i) = elim (Bool-cases (deleted_at items i)) [
  | inl gone ↦ rw gone (extend gone (skip_back-LastBefore items i))
  | inr kept ↦ rw kept (found i (omega arith) kept (λ j h l. absurd (omega arith)))
]
  where
    at_most_i :
        deleted_at items i ≡ true
        → (P : ℕ → Type 0) → ((j : ℕ) → P j → j < i → deleted_at items j ≡ true)
        → (j : ℕ) → P j
        → j < suc i
        → deleted_at items j ≡ true
    at_most_i gone P h j q l = elim (lt_suc_cases j i l) [
      | inl below ↦ h j q below
      | inr same ↦ ap (deleted_at items) same ∙ gone
    ]

    extend : {r : ℤ} → deleted_at items i ≡ true → LastBefore items i r → LastBefore items (suc i) r
    extend gone (found k h live past) =
        found k (omega arith) live (λ j a b. at_most_i gone (λ j. k < j) past j a b)
    extend gone (none_left past) =
        none_left (λ j h. at_most_i gone (λ j. Unit {0}) (λ j t. past j) j tt h)

-- `plist_prev` returns the last item before `n` that is not deleted, and -1 exactly when there is
-- none, so also for -1.
pub plist_prev-LastBefore : (p : Plist) (n : ℤ) → LastBefore p.items (pos_part n) (plist_prev p n)
unfolding plist_prev
plist_prev-LastBefore p n = skip_back-LastBefore p.items (pos_part n)

last_from-skip_back :
    (items : List PlistItem) (i : ℕ) → last_from items i ≡ pos_part (skip_back items (suc i))
unfolding last_from skip_back
last_from-skip_back items zero = ground arith
last_from-skip_back items (suc i) = ground (arith, last_from-skip_back items i)

-- `plist_last` returns the item that `plist_prev` finds from the end; where `plist_prev` finds none it
-- returns 0 if the list has items, though all of them are deleted, and -1 if it has none.
plist_last-plist_prev :
    (p : Plist)
    → plist_last p ≡ (if num p == 0 then minus_one else pos (pos_part (plist_prev p (pos (num p)))))
unfolding plist_last plist_prev
plist_last-plist_prev p = elim (Bool-cases (num p == 0)) [
  | inl empty ↦ rw empty refl
  | inr some ↦ rw some (
      ap pos (
        last_from-skip_back p.items (num p - 1)
        ∙ ap (λ k. pos_part (skip_back p.items k)) {x = suc (num p - 1)} {y = num p}
            (ground arith)))
]
