-- ===== src/Audio/Position/InOrder.antt =====
-- audio.c: playing the list from the first item on, without Shuffle and Repeat.
use Prim.Native.Nat.{Ordering}
use mocp.Prelude.{
  some_inj, and_false, ℕ, zero, suc, ◌+◌, ◌-◌, ◌≤◌, ◌<◌, ◌≡◌, refl, sym, ap, ◌∙◌, subst, Bool, true,
  false, not, Option, none, some, List, [], ◌∷◌, get_elem?, lt_of_get_elem?, if◌then◌else◌, length,
  drop, replicate, arith, drop-drop, length-drop,
}
use mocp.Prelude.Int.{ℤ, pos}
use mocp.Bytes.{Str}
use mocp.Files.{World}
use mocp.Item.{PlistItem}
use mocp.Playlist.{num, minus_one, is_set, deleted_at, is_deleted, plist_count, plist_next}
use mocp.Playlist.Walk.{FirstFrom, plist_next-FirstFrom, deleted_at-drop}
use mocp.Playlist.SearchTree.{Searched, name_of, plist_find_fname}
use mocp.Audio.Position.{Player, Settings, Which, in_playlist, has_items, go_to_another_file}
use mocp.Audio.Position.Thread.{Asked, play_turn, play_loop, audio_play}

-- AutoNext alone
abbrev pub auto_next : Bool → Settings
auto_next r = record {
  shuffle = false;
  auto_next = true;
  repeat = false;
  queue_next_song_return = r;
}

-- nothing is asked for
abbrev pub quiet : Asked
quiet = record { stop = false; next = false; prev = false; changes = [] }

-- a player that stands at item i of the playlist, or is stopped
abbrev pub player_at : Searched → Searched → Searched → Which → Option Str → ℤ → Player
player_at playlist shuffled queue which fname i = record {
  curr_playing = i;
  before_queue_fname = none;
  curr_playing_fname = fname;
  started_playing_in_queue = false;
  stop_playing = false;
  play_next = false;
  play_prev = false;
  playlist = playlist;
  shuffled_plist = shuffled;
  queue = queue;
  curr_plist = which;
}

-- the names of the items that are not deleted
unfoldable pub live_files : List PlistItem → List Str
live_files [] = []
live_files (item ∷ items) =
    let rest = live_files items in if item.deleted then rest else name_of (some item) ∷ rest

live_files-skip :
    (xs : List PlistItem) (n : ℕ)
    → ((m : ℕ) → m < n → deleted_at xs m ≡ true)
    → live_files xs ≡ live_files (drop n xs)
unfolding live_files
live_files-skip xs zero h = refl
live_files-skip [] (suc n) h = refl
live_files-skip (x ∷ xs) (suc n) h =
    rw (h 0 (omega arith)) (live_files-skip xs n λ m l. h (suc m) (omega arith))

live_files-none :
    (xs : List PlistItem) → ((m : ℕ) → m < length xs → deleted_at xs m ≡ true) → live_files xs ≡ []
unfolding live_files
live_files-none [] h = refl
live_files-none (x ∷ xs) h =
    rw (h 0 (omega arith)) (live_files-none xs λ m l. h (suc m) (omega arith))

live_files-live :
    (xs : List PlistItem) (j : ℕ) (item : PlistItem)
    → get_elem? xs j ≡ some item
    → item.deleted ≡ false
    → live_files (drop j xs) ≡ name_of (some item) ∷ live_files (drop (suc j) xs)
unfolding live_files
live_files-live [] j item e d = cc
live_files-live (x ∷ xs) zero item e d =
    subst (λ y. live_files (y ∷ xs) ≡ name_of (some item) ∷ live_files xs) (sym (some_inj e))
      (rw d refl)
live_files-live (x ∷ xs) (suc j) item e d = live_files-live xs j item e d

get_of_lt :
    (xs : List PlistItem) (j : ℕ) → j < length xs → (x : PlistItem) × (get_elem? xs j ≡ some x)
get_of_lt [] j l = elim l [ ]
get_of_lt (x ∷ xs) zero l = (x, refl)
get_of_lt (x ∷ xs) (suc j) l = get_of_lt xs j (omega arith)

-- What plays from k on, by the item that comes first there.
data Plays (items : List PlistItem) (k : ℕ) : ℤ → Type 0 where
  next_item :
      (j : ℕ) (item : PlistItem)
      → k ≤ j
      → get_elem? items j ≡ some item
      → item.deleted ≡ false
      → live_files (drop k items) ≡ name_of (some item) ∷ live_files (drop (suc j) items)
      → Plays items k (pos j)
  at_end : live_files (drop k items) ≡ [] → Plays items k minus_one

Plays-FirstFrom : (items : List PlistItem) (k : ℕ) (i : ℤ) → FirstFrom items k i → Plays items k i
Plays-FirstFrom items k _ (FirstFrom.found j l b d h) =
    let (item, e) = get_of_lt items j b in
    let live : item.deleted ≡ false = sym (ap is_deleted e) ∙ d in
    next_item j item l e live (
      live_files-skip (drop k items) (j - k)
        (λ m l'. deleted_at-drop items k m ∙ h (k + m) (omega arith) (omega arith))
      ∙ ap live_files (drop-drop k (j - k) j items (omega arith))
      ∙ live_files-live items j item e live)
Plays-FirstFrom items k _ (FirstFrom.none_left h) = at_end (
    live_files-none (drop k items) λ m l.
      deleted_at-drop items k m ∙ h (k + m) (omega arith) (omega (arith, length-drop k items)))

module _ (strcoll : Str → Str → Ordering) where
  -- Every item that is not deleted has a file, and is found by its name.
  abbrev pub IsFindable : Searched → Type 0
  IsFindable s =
      (i : ℕ) (item : PlistItem)
      → get_elem? s.list.items i ≡ some item
      → item.deleted ≡ false
      → (f : Str) × (item.file ≡ some f) × (plist_find_fname strcoll s f ≡ some (pos i))

  module _ (w : World) (picks : ℕ → ℕ) (pl sh qu : Searched) (r : Bool) where
    turn_eq :
        (fname : Option Str) (i : ℕ) (item : PlistItem) (f : Str)
        → has_items qu ≡ false
        → has_items pl ≡ true
        → get_elem? pl.list.items i ≡ some item
        → item.file ≡ some f
        → plist_find_fname strcoll pl f ≡ some (pos i)
        → play_turn strcoll w picks
            (auto_next r)
            quiet
            (player_at pl sh qu in_playlist fname (pos i))
          ≡ some (some f, player_at pl sh qu in_playlist (some f) (plist_next pl.list (pos i)))
    unfolding play_turn go_to_another_file
    turn_eq fname i item f q h e e' found =
        rw
          (
            play_turn,
            e,
            e',
            go_to_another_file,
            q,
            found,
            h,
            and_false (not (is_set (plist_next pl.list (pos i)))),
          )
          (rw e' refl)

    loop_from :
        (n k : ℕ) (i : ℤ) (fname : Option Str)
        → has_items qu ≡ false
        → has_items pl ≡ true
        → IsFindable pl
        → Plays pl.list.items k i
        → length pl.list.items - k ≤ n
        → (last : Option Str) × (play_loop strcoll w picks
              (auto_next r)
              (replicate n quiet)
              (player_at pl sh qu in_playlist fname i)
            ≡ some
                (live_files (drop k pl.list.items), player_at pl sh qu in_playlist last minus_one))
    unfolding play_loop
    loop_from zero k _ fname q h s (at_end e) l =
        (fname, ap (λ fs. some (fs, player_at pl sh qu in_playlist fname minus_one)) (sym e))
    loop_from (suc n) k _ fname q h s (at_end e) l =
        (fname, ap (λ fs. some (fs, player_at pl sh qu in_playlist fname minus_one)) (sym e))
    loop_from zero k _ fname q h s (next_item j item b e live fs) l =
        absurd (omega (arith, lt_of_get_elem? pl.list.items j item e))
    loop_from (suc n) k _ fname q h s (next_item j item b e live fs) l =
        let (f, e', found) = s j item e live in
        let next = plist_next-FirstFrom pl.list (pos j) in
        let (last, rest) =
          loop_from n (suc j) (plist_next pl.list (pos j)) (some f) q h s
            (Plays-FirstFrom pl.list.items (suc j) _ next) (omega arith) in
        (
          last,
          rw (play_loop, turn_eq fname j item f q h e e' found, rest)
              (ap (λ l. some (l, player_at pl sh qu in_playlist last minus_one))
                (ap
                    (λ o.
                      name_of (some (record item { file = o }))
                      ∷ live_files (drop (suc j) pl.list.items))
                    (sym e')
                  ∙ sym fs)),
        )

    -- With AutoNext alone, with no file queued and every item of the playlist that is not deleted
    -- found by its file name, audio_play for no file and the loop of play_thread play the files of
    -- these items, each once and in order, and then stop; the playlist has such items, no file was
    -- played before, and nothing is asked for meanwhile.
    pub play_loop-live_files :
        (n : ℕ) (which : Which)
        → has_items qu ≡ false
        → has_items pl ≡ true
        → IsFindable pl
        → num pl.list ≤ n
        → (p : Player) × (audio_play strcoll w picks
              (auto_next r)
              (player_at pl sh qu which none minus_one)
              []
            ≡ some p)
          × (last : Player) × (play_loop strcoll w picks (auto_next r) (replicate n quiet) p
              ≡ some (live_files pl.list.items, last))
          × (last.curr_playing ≡ minus_one)
    unfolding audio_play plist_count plist_next
    play_loop-live_files n which q h s l =
        let first = plist_next-FirstFrom pl.list minus_one in
        let (last, e) =
          loop_from n 0 (plist_next pl.list minus_one) none q h s
            (Plays-FirstFrom pl.list.items 0 _ first) (omega arith) in
        (
          player_at pl sh qu in_playlist none (plist_next pl.list minus_one),
          rw (audio_play, q, h) refl,
          player_at pl sh qu in_playlist last minus_one,
          e,
          refl,
        )
