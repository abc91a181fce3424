-- ===== src/Lists.antt =====
-- lists.c: the list of strings that options, themes and file names are kept in.
-- `strs` holds the `size` entries in use, so `size` is its length. A function that asserts returns
-- `none` where the assertion fails; a string that is given is not NULL.
pub mod Reverse
pub mod Tokens
pub mod Inv
mod Tests
use mocp.Prelude.{
  ℕ, zero, suc, ◌+◌, ◌-◌, ◌*◌, Bool, true, false, not, ◌||◌, Option, none, some, List, [], ◌∷◌,
  ◌++◌, ltb, ◌==◌, if◌then◌else◌, length, get_elem?, set, take,
}
use mocp.Bytes.{Str}
use mocp.Files.{same_nocase, chars}

-- `struct lists_strs`
pub record Strs : Type 0 where
  pub capacity : ℕ
  pub strs : List Str

unfoldable pub lists_strs_new : ℕ → Strs
lists_strs_new reserve = record { capacity = if reserve == 0 then 64 else reserve; strs = [] }

unfoldable pub lists_strs_clear : Strs → Strs
lists_strs_clear list = record list { strs = [] }

unfoldable pub lists_strs_size : Strs → ℕ
lists_strs_size list = length list.strs

unfoldable pub lists_strs_empty : Strs → Bool
lists_strs_empty list = length list.strs == 0

unfoldable pub lists_strs_at : Strs → ℕ → Option Str
lists_strs_at list index = get_elem? list.strs index

-- The two entries change places; both are read before either is written.
abbrev pub exchange : List Str → ℕ → ℕ → List Str
exchange xs i j = elim (get_elem? xs i) [
  | none ↦ xs
  | some x ↦ elim (get_elem? xs j) [ none ↦ xs | some y ↦ set (set xs i y) j x ]
]

-- the loop of `lists_strs_reverse`
unfoldable pub reverse_loop : ℕ → ℕ → ℕ → List Str → List Str
reverse_loop zero ix iy xs = xs
reverse_loop (suc fuel) ix iy xs =
    let rest = reverse_loop fuel (ix + 1) (iy - 1) (exchange xs ix iy) in
    if ltb ix iy then rest else xs

-- For an empty list the C code starts at -1 and this at 0: neither is above 0. A round brings the two
-- indices two closer, so there are fewer rounds than entries.
unfoldable pub lists_strs_reverse : Strs → Strs
lists_strs_reverse list = record list {
  strs = reverse_loop (length list.strs) 0 (length list.strs - 1) list.strs;
}

unfoldable pub lists_strs_push : Strs → Str → Strs
lists_strs_push list s = record list {
  capacity = if length list.strs == list.capacity then list.capacity * 2 else list.capacity;
  strs = list.strs ++ (s ∷ []);
}

unfoldable pub lists_strs_pop : Strs → Option Str × Strs
lists_strs_pop list =
    if ltb 0 (length list.strs)
    then (
      get_elem? list.strs (length list.strs - 1),
      record list { strs = take (length list.strs - 1) list.strs },
    )
    else (none, list)

unfoldable pub lists_strs_swap : Strs → ℕ → Str → Option (Str × Strs)
lists_strs_swap list index s = elim (get_elem? list.strs index) [
  | none ↦ none
  | some old ↦ some (old, record list { strs = set list.strs index s })
]

unfoldable pub lists_strs_append : Strs → Str → Strs
unfolding lists_strs_push
lists_strs_append list s = lists_strs_push list s

unfoldable pub lists_strs_remove : Strs → Strs
unfolding lists_strs_pop
lists_strs_remove list = (lists_strs_pop list).1

unfoldable pub lists_strs_replace : Strs → ℕ → Str → Option Strs
lists_strs_replace list index s = elim (lists_strs_swap list index s) [
  | none ↦ none
  | some (old, list) ↦ some list
]

-- Whether a byte is one of the delimiters.
abbrev pub is_delim : Str → ℕ → Bool
is_delim [] c = false
is_delim (d ∷ delim) c = c == d || is_delim delim c

-- strtok_r (3): the delimiters in front are skipped; `none` if nothing else is left, or else the bytes
-- up to the next delimiter and what follows it.
unfoldable pub skip_delims : Str → Str → Str
skip_delims delim [] = []
skip_delims delim (c ∷ s) =
    let rest = skip_delims delim s in if is_delim delim c then rest else c ∷ s

unfoldable pub cut_token : Str → Str → Str × Str
cut_token delim [] = ([], [])
cut_token delim (c ∷ s) =
    let (token, rest) = cut_token delim s in if is_delim delim c then ([], s) else (c ∷ token, rest)

abbrev pub token_of : Str → Str → Option (Str × Str)
token_of delim [] = none
token_of delim (c ∷ s) = some (cut_token delim (c ∷ s))

abbrev pub strtok_r : Str → Str → Option (Str × Str)
strtok_r delim s = token_of delim (skip_delims delim s)

-- the loop of `lists_strs_split`, with the tokens counted in `result`
unfoldable pub split_loop : ℕ → Str → Str → ℕ → Strs → ℕ × Strs
split_loop zero delim s result list = (result, list)
split_loop (suc fuel) delim s result list = elim (strtok_r delim s) [
  | none ↦ (result, list)
  | some (token, rest) ↦ split_loop fuel delim rest (result + 1) (lists_strs_append list token)
]

-- A token has a byte at least, so there are no more tokens than bytes.
unfoldable pub lists_strs_split : Strs → Str → Str → ℕ × Strs
lists_strs_split list s delim = split_loop (suc (length s)) delim s 0 list

unfoldable pub lists_strs_tokenise : Strs → Str → ℕ × Strs
unfolding lists_strs_split
lists_strs_tokenise list s = lists_strs_split list s (chars " \t")

-- the loop of `lists_strs_load` over the strings before the NULL
unfoldable pub load_loop : Strs → List Str → Strs
load_loop list [] = list
load_loop list (s ∷ saved) = load_loop (lists_strs_append list s) saved

unfoldable pub lists_strs_load : Strs → List Str → ℕ × Strs
unfolding load_loop
lists_strs_load list saved =
    let new = load_loop list saved in (length new.strs - length list.strs, new)

-- the loop of `lists_strs_find`: the entries from number `result` on
unfoldable pub find_from : List Str → Str → ℕ → ℕ
find_from [] sought result = result
find_from (s ∷ strs) sought result =
    if same_nocase s sought then result else find_from strs sought (result + 1)

unfoldable pub lists_strs_find : Strs → Str → ℕ
unfolding find_from
lists_strs_find list sought = find_from list.strs sought 0

unfoldable pub lists_strs_exists : Strs → Str → Bool
unfolding lists_strs_find
lists_strs_exists list sought = ltb (lists_strs_find list sought) (length list.strs)
