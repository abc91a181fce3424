-- ===== src/Audio/Position/Stuck.antt =====
-- audio.c: the end of the queue with Repeat and without AutoNext.
use Prim.Native.Nat.{Ordering}
use mocp.Prelude.{
  and_false, ℕ, zero, suc, ◌≡◌, refl, Bool, true, false, Option, none, some, [], ◌∷◌, get_elem?,
  replicate,
}
use mocp.Prelude.Int.{pos}
use mocp.Bytes.{Str}
use mocp.Files.{World}
use mocp.Item.{PlistItem}
use mocp.Playlist.{minus_one}
use mocp.Playlist.SearchTree.{Searched, plist_find_fname}
use mocp.Audio.Position.{
  Player, Settings, Which, in_playlist, in_queue, has_items, go_to_another_file,
}
use mocp.Audio.Position.Thread.{play_turn, play_loop}
use mocp.Audio.Position.InOrder.{quiet, player_at}

-- Repeat alone
abbrev pub repeat_one : Bool → Settings
repeat_one r = record {
  shuffle = false;
  auto_next = false;
  repeat = true;
  queue_next_song_return = r;
}

-- a player that was started in the queue
abbrev pub from_queue : Searched → Searched → Searched → Which → Option Str → ℕ → Player
from_queue pl sh qu which fname i = record (player_at pl sh qu which fname (pos i)) {
  started_playing_in_queue = true;
}

module _ (strcoll : Str → Str → Ordering) (w : World) (picks : ℕ → ℕ) (pl sh qu : Searched)
    (r : Bool) where
  last_of_queue :
      (i : ℕ) (item : PlistItem) (f : Str)
      → get_elem? qu.list.items i ≡ some item
      → item.file ≡ some f
      → plist_find_fname strcoll pl f ≡ some minus_one
      → play_turn strcoll w picks (repeat_one r) quiet (from_queue pl sh qu in_queue none i)
        ≡ some (some f, from_queue pl sh qu in_playlist (some f) i)
  unfolding play_turn go_to_another_file
  last_of_queue i item f e e' s =
      rw (play_turn, e, e', go_to_another_file, and_false (has_items qu), s) (rw e' refl)

  no_item :
      (i : ℕ) (f : Str)
      → get_elem? pl.list.items i ≡ none
      → plist_find_fname strcoll pl f ≡ some minus_one
      → play_turn strcoll w picks (repeat_one r) quiet (from_queue pl sh qu in_playlist (some f) i)
        ≡ some (none, from_queue pl sh qu in_playlist (some f) i)
  unfolding play_turn go_to_another_file
  no_item i f e s = rw (play_turn, e, go_to_another_file, and_false (has_items qu), s) refl

  stays :
      (n i : ℕ) (f : Str)
      → get_elem? pl.list.items i ≡ none
      → plist_find_fname strcoll pl f ≡ some minus_one
      → play_loop strcoll w picks
          (repeat_one r)
          (replicate n quiet)
          (from_queue pl sh qu in_playlist (some f) i)
        ≡ some ([], from_queue pl sh qu in_playlist (some f) i)
  unfolding play_loop
  stays zero i f e s = refl
  stays (suc n) i f e s = rw (play_loop, no_item i f e s, stays n i f e s) refl

  -- With Repeat alone, after a file of the queue, with which audio_play started, that is not on
  -- the playlist and whose number in the queue is past the end of the playlist, the loop of
  -- play_thread goes round for ever: it plays nothing more and does not stop; nothing is asked for
  -- meanwhile.
  pub play_loop_stuck :
      (n i : ℕ) (item : PlistItem) (f : Str)
      → get_elem? qu.list.items i ≡ some item
      → item.file ≡ some f
      → plist_find_fname strcoll pl f ≡ some minus_one
      → get_elem? pl.list.items i ≡ none
      → (last : Player) × (play_loop strcoll w picks
            (repeat_one r)
            (replicate (suc n) quiet)
            (from_queue pl sh qu in_queue none i)
          ≡ some (f ∷ [], last))
        × (last.curr_playing ≡ pos i)
  unfolding play_loop
  play_loop_stuck n i item f e e' s h = (
    from_queue pl sh qu in_playlist (some f) i,
    rw (play_loop, last_of_queue i item f e e' s, stays n i f h s) refl,
    refl,
  )
