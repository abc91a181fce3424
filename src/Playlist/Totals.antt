-- ===== src/Playlist/Totals.antt =====
-- The counters of `struct plist` of playlist.c, and sums over its items.
use mocp.Prelude.{
  ℕ, zero, suc, ◌≤◌, ◌<◌, ◌≡◌, refl, inl, inr, true, Bool-cases, List, [], ◌∷◌, ◌++◌, none, some,
  if◌then◌else◌, get_elem?, set, length-set, arith,
}
use mocp.Prelude.Int.{ℤ, pos, ◌+ℤ◌, ◌-ℤ◌, int_laws, parts_of_eq}
use mocp.Item.{PlistItem}
use mocp.Playlist.{Plist, num, is_set, tags_seconds, add_time, sub_time}

-- a sum over the items
unfoldable pub sum : (PlistItem → ℤ) → List PlistItem → ℤ
sum f [] = pos 0
sum f (x ∷ xs) = f x +ℤ sum f xs

-- what an item adds to the three counters
abbrev pub live : PlistItem → ℤ
live item = if item.deleted then pos 0 else pos 1

abbrev pub timed : PlistItem → ℤ
timed item = if is_set (tags_seconds item.tags) then pos 1 else pos 0

abbrev pub seconds : PlistItem → ℤ
seconds item = if is_set (tags_seconds item.tags) then tags_seconds item.tags else pos 0

-- A deleted item has lost its tags.
abbrev pub IsStripped : PlistItem → Type 0
IsStripped item = item.deleted ≡ true → item.tags ≡ none

abbrev pub AllStripped : List PlistItem → Type 0
AllStripped [] = Unit {0}
AllStripped (x ∷ xs) = IsStripped x × AllStripped xs

pub record IsCounted (p : Plist) : Type 0 where
  pub room : num p ≤ p.allocated
  pub some_room : 0 < p.allocated
  pub counted : p.not_deleted ≡ sum live p.items
  pub with_time : p.items_with_time ≡ sum timed p.items
  pub total : p.total_time ≡ sum seconds p.items
  pub stripped : AllStripped p.items

sum-set :
    (f : PlistItem → ℤ) (xs : List PlistItem) (i : ℕ) (old new : PlistItem)
    → get_elem? xs i ≡ some old
    → sum f (set xs i new) +ℤ f old ≡ sum f xs +ℤ f new
unfolding sum
sum-set f [] i old new e = cc
sum-set f (x ∷ xs) zero old new e = let same : x ≡ old = cc in rw same (omega int_laws)
sum-set f (x ∷ xs) (suc i) old new e = omega (int_laws, parts_of_eq (sum-set f xs i old new e))

pub sum-append :
    (f : PlistItem → ℤ) (xs ys : List PlistItem) → sum f (xs ++ ys) ≡ sum f xs +ℤ sum f ys
unfolding sum
sum-append f [] ys = omega int_laws
sum-append f (x ∷ xs) ys = omega (int_laws, parts_of_eq (sum-append f xs ys))

AllStripped-set :
    (xs : List PlistItem) (i : ℕ) (new : PlistItem)
    → IsStripped new
    → AllStripped xs
    → AllStripped (set xs i new)
AllStripped-set [] i new n h = tt
AllStripped-set (x ∷ xs) zero new n h = (n, h.1)
AllStripped-set (x ∷ xs) (suc i) new n h = (h.0, AllStripped-set xs i new n h.1)

pub AllStripped-append :
    (xs ys : List PlistItem) → AllStripped xs → AllStripped ys → AllStripped (xs ++ ys)
AllStripped-append [] ys g h = h
AllStripped-append (x ∷ xs) ys g h = (g.0, AllStripped-append xs ys g.1 h)

-- the three sums after the item at `i` has become `new`
sums-set :
    (xs : List PlistItem) (i : ℕ) (old new : PlistItem)
    → get_elem? xs i ≡ some old
    → (sum live (set xs i new) +ℤ live old ≡ sum live xs +ℤ live new)
      × (sum timed (set xs i new) +ℤ timed old ≡ sum timed xs +ℤ timed new)
      × (sum seconds (set xs i new) +ℤ seconds old ≡ sum seconds xs +ℤ seconds new)
sums-set xs i old new e =
    (sum-set live xs i old new e, sum-set timed xs i old new e, sum-set seconds xs i old new e)

cancel : (a b c d : ℤ) → a +ℤ b ≡ c +ℤ d → a ≡ c +ℤ d -ℤ b
cancel a b c d e = omega (int_laws, parts_of_eq e)

-- what a time adds to the two sums of times
abbrev pub one_if_set : ℤ → ℤ
one_if_set t = if is_set t then pos 1 else pos 0

abbrev pub time_if_set : ℤ → ℤ
time_if_set t = if is_set t then t else pos 0

+ℤ_zero : (a : ℤ) → a ≡ a +ℤ pos 0
+ℤ_zero a = omega int_laws

-ℤ_zero : (a : ℤ) → a ≡ a -ℤ pos 0
-ℤ_zero a = omega int_laws

-- `q` is `p` with its two sums of times changed, and no other counter.
pub record Shares (p q : Plist) : Type 0 where
  pub items : q.items ≡ p.items
  pub allocated : q.allocated ≡ p.allocated
  pub not_deleted : q.not_deleted ≡ p.not_deleted

pub add_time_lem :
    (p : Plist) (t : ℤ)
    → ((add_time p t).items_with_time ≡ p.items_with_time +ℤ one_if_set t)
      × ((add_time p t).total_time ≡ p.total_time +ℤ time_if_set t)
      × Shares p (add_time p t)
add_time_lem p t = elim (Bool-cases (is_set t)) [
  | inl e ↦ rw e (refl, refl, record { items = refl; allocated = refl; not_deleted = refl })
  | inr e ↦
      rw e (+ℤ_zero _, +ℤ_zero _, record { items = refl; allocated = refl; not_deleted = refl })
]

pub sub_time_lem :
    (p : Plist) (t : ℤ)
    → ((sub_time p t).items_with_time ≡ p.items_with_time -ℤ one_if_set t)
      × ((sub_time p t).total_time ≡ p.total_time -ℤ time_if_set t)
      × Shares p (sub_time p t)
sub_time_lem p t = elim (Bool-cases (is_set t)) [
  | inl e ↦ rw e (refl, refl, record { items = refl; allocated = refl; not_deleted = refl })
  | inr e ↦
      rw e (-ℤ_zero _, -ℤ_zero _, record { items = refl; allocated = refl; not_deleted = refl })
]

-- One item replaced, and its old time taken out of the sums and its new one put in.
pub replace-IsCounted :
    (p q : Plist) (i : ℕ) (old new : PlistItem)
    → IsCounted p
    → get_elem? p.items i ≡ some old
    → IsStripped new
    → q.items ≡ set p.items i new
    → q.allocated ≡ p.allocated
    → q.not_deleted +ℤ live old ≡ p.not_deleted +ℤ live new
    → q.items_with_time +ℤ timed old ≡ p.items_with_time +ℤ timed new
    → q.total_time +ℤ seconds old ≡ p.total_time +ℤ seconds new
    → IsCounted q
replace-IsCounted p q i old new c e n same room l t s = record {
  room = rw same (omega (arith, length-set p.items i new, room, c.room));
  some_room = omega (arith, room, c.some_room);
  counted = rw same (omega (int_laws, parts_of_eq l, parts_of_eq c.counted, parts_of_eq sums.0));
  with_time =
      rw same (omega (int_laws, parts_of_eq t, parts_of_eq c.with_time, parts_of_eq sums.1));
  total = rw same (omega (int_laws, parts_of_eq s, parts_of_eq c.total, parts_of_eq sums.2));
  stripped = rw same (AllStripped-set p.items i new n c.stripped);
}
  where
    sums :
        (sum live (set p.items i new) +ℤ live old ≡ sum live p.items +ℤ live new)
        × (sum timed (set p.items i new) +ℤ timed old ≡ sum timed p.items +ℤ timed new)
        × (sum seconds (set p.items i new) +ℤ seconds old ≡ sum seconds p.items +ℤ seconds new)
    sums = sums-set p.items i old new e
