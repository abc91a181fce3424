-- ===== src/Lists/Inv.antt =====
-- Pushing and popping, and the room that the array has.
use mocp.Prelude.{
  get_elem?-append_last, ℕ, zero, suc, ◌+◌, ◌-◌, ◌≤◌, ◌<◌, ◌≡◌, refl, ap, ap₂, ◌∙◌, sym, inl, inr,
  true, false, Bool-cases, some, List, [], ◌∷◌, ◌++◌, ltb, length, length-append, get_elem?,
  lt_of_get_elem?, subst, ◌↔◌, take-append_self, arith, append_assoc, append-nil,
}
use mocp.Bytes.{Str}
use mocp.Lists.{
  Strs, lists_strs_at, lists_strs_push, lists_strs_pop, lists_strs_append, lists_strs_load,
  load_loop, lists_strs_exists, lists_strs_find, find_from,
}
use mocp.Lists.Reverse.{elem_below}
use mocp.Files.{same_nocase}

-- The entries fit the array, which has room for one at least.
pub record HasRoom (list : Strs) : Type 0 where
  pub some_room : 0 < list.capacity
  pub fits : length list.strs ≤ list.capacity

push-HasRoom : (list : Strs) (s : Str) → HasRoom list → HasRoom (lists_strs_push list s)
unfolding lists_strs_push
push-HasRoom list s h = record {
  some_room = ground (arith, h.some_room);
  fits = ground (arith, length-append list.strs (s ∷ []), h.fits, h.some_room);
}

-- the last entry taken off
pop_last :
    (xs : List Str) (s : Str) (c : ℕ)
    → lists_strs_pop record { capacity = c; strs = xs ++ (s ∷ []) }
      ≡ (some s, record { capacity = c; strs = xs })
unfolding lists_strs_pop
pop_last xs s c =
    rw (size, not_empty)
      (ap₂ (λ o ys. (o, record { capacity = c; strs = ys }))
        (ap (get_elem? (xs ++ (s ∷ []))) {x = length xs + 1 - 1} {y = length xs} (omega arith)
          ∙ get_elem?-append_last xs s)
        (take-append_self (length xs + 1 - 1) xs (s ∷ []) (omega arith)))
  where
    size : length (xs ++ (s ∷ [])) ≡ length xs + 1
    size = length-append xs (s ∷ [])

    not_empty : ltb 0 (length xs + 1) ≡ true
    not_empty = ground arith

-- `lists_strs_pop` after `lists_strs_push` on a list whose entries fit its array returns the string that
-- was pushed and leaves the entries of before; the entries fit the array after both.
pop-push :
    (list : Strs) (s : Str)
    → HasRoom list
    → (l : Strs) × (lists_strs_pop (lists_strs_push list s) ≡ (some s, l))
      × (l.strs ≡ list.strs)
      × HasRoom (lists_strs_push list s)
      × HasRoom l
unfolding lists_strs_push
pop-push list s h =
    let room = push-HasRoom list s h in
    (
      record { capacity = (lists_strs_push list s).capacity; strs = list.strs },
      pop_last list.strs s (lists_strs_push list s).capacity,
      refl,
      room,
      record {
        some_room = room.some_room;
        fits = omega (arith, room.fits, length-append list.strs (s ∷ []));
      },
    )

load_loop-strs : (saved : List Str) (list : Strs) → (load_loop list saved).strs ≡ list.strs ++ saved
unfolding load_loop lists_strs_append lists_strs_push
load_loop-strs [] list = sym (append-nil list.strs)
load_loop-strs (s ∷ saved) list =
    load_loop-strs saved (lists_strs_append list s) ∙ append_assoc list.strs (s ∷ []) saved

load_loop-HasRoom : (saved : List Str) (list : Strs) → HasRoom list → HasRoom (load_loop list saved)
unfolding load_loop lists_strs_append
load_loop-HasRoom [] list h = h
load_loop-HasRoom (s ∷ saved) list h =
    load_loop-HasRoom saved (lists_strs_append list s) (push-HasRoom list s h)

-- `lists_strs_load` appends the saved strings in their order and returns their number; entries that fit
-- the array fit it afterwards.
load_appends :
    (list : Strs) (saved : List Str)
    → HasRoom list
    → ((lists_strs_load list saved).0 ≡ length saved)
      × ((lists_strs_load list saved).1.strs ≡ list.strs ++ saved)
      × HasRoom (lists_strs_load list saved).1
unfolding lists_strs_load
load_appends list saved h = (
  omega (arith, ap length (load_loop-strs saved list), length-append list.strs saved),
  load_loop-strs saved list,
  load_loop-HasRoom saved list h,
)

-- where a search that has come to entry `n` finds `sought`, `n` counting from the first of `strs`
pub record Found (strs : List Str) (sought : Str) (r : ℕ) : Type 0 where
  pub in_list : r ≤ length strs
  pub before : (k : ℕ) (s : Str) → k < r → get_elem? strs k ≡ some s → same_nocase s sought ≡ false
  pub at : (s : Str) → get_elem? strs r ≡ some s → same_nocase s sought ≡ true

find_from-start :
    (strs : List Str) (sought : Str) (n : ℕ) → find_from strs sought n ≡ n + find_from strs sought 0
unfolding find_from
find_from-start [] sought n = omega arith
find_from-start (s ∷ strs) sought n = elim (Bool-cases (same_nocase s sought)) [
  | inl y ↦ rw y (omega arith)
  | inr e ↦ rw e (omega (arith, find_from-start strs sought (n + 1), find_from-start strs sought 1))
]

head-Found :
    (x : Str) (strs : List Str) (sought : Str)
    → same_nocase x sought ≡ true
    → Found (x ∷ strs) sought 0
head-Found x strs sought y = record {
  in_list = omega arith;
  before = λ k s h e. absurd (omega arith);
  at = λ s e. cc;
}

tail-Found :
    (x : Str) (strs : List Str) (sought : Str) (r : ℕ)
    → same_nocase x sought ≡ false
    → Found strs sought r
    → Found (x ∷ strs) sought (1 + r)
tail-Found x strs sought r n f = record {
  in_list = omega (arith, f.in_list);
  before = earlier;
  at = λ s e. f.at s (ap (get_elem? (x ∷ strs)) {x = suc r} {y = 1 + r} (omega arith) ∙ e);
}
  where
    earlier :
        (k : ℕ) (s : Str)
        → k < 1 + r
        → get_elem? (x ∷ strs) k ≡ some s
        → same_nocase s sought ≡ false
    earlier zero s h e = cc
    earlier (suc k) s h e = f.before k s (omega arith) e

find_from-Found : (strs : List Str) (sought : Str) → Found strs sought (find_from strs sought 0)
unfolding find_from
find_from-Found [] sought = record {
  in_list = omega arith;
  before = λ k s h e. absurd (omega arith);
  at = λ s e. cc;
}
find_from-Found (x ∷ strs) sought = elim (Bool-cases (same_nocase x sought)) [
  | inl y ↦ rw y (head-Found x strs sought y)
  | inr e ↦ rw e (
      subst (Found (x ∷ strs) sought) (sym (find_from-start strs sought 1))
        (tail-Found x strs sought (find_from strs sought 0) e (find_from-Found strs sought)))
]

-- `lists_strs_find` returns the number of the first entry that is the string but for case, or the number of
-- all entries if there is none; `lists_strs_exists` says which it is.
find-Found :
    (list : Strs) (sought : Str)
    → Found list.strs sought (lists_strs_find list sought)
      × ((lists_strs_exists list sought ≡ true)
          ↔ ((k : ℕ) × (s : Str) × (lists_strs_at list k ≡ some s) × (same_nocase s sought ≡ true)))
unfolding lists_strs_find lists_strs_exists lists_strs_at
find-Found list sought =
    let f = find_from-Found list.strs sought in
    (
      f,
      (
        (λ e.
            let (s, at) = elem_below list.strs (find_from list.strs sought 0) (ground arith) in
            (find_from list.strs sought 0, s, at, f.at s at)),
        (λ (k, s, e, m). ground (arith, lt_of_get_elem? list.strs k s e, f.before k s)),
      ),
    )
