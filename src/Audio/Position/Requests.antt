-- ===== src/Audio/Position/Requests.antt =====
-- audio.c: what a client asks for while a file is played: the changes of the playlist, of its shuffled copy
-- and of the queue. A function returns `none` where the program aborts.
use Prim.Native.Nat.{Ordering}
use mocp.Prelude.{Option, none, some, List, [], ◌∷◌, if◌then◌else◌}
use mocp.Prelude.Int.{ℤ, pos, negsuc}
use mocp.Bytes.{Str}
use mocp.Files.{World}
use mocp.Playlist.{is_set, plist_delete}
use mocp.Playlist.SearchTree.{Searched, plist_find_fname, plist_add}
use mocp.Playlist.SearchTree.Swap.{plist_swap_files}
use mocp.Audio.Position.{Player, cleared}

-- a request that changes a list
pub data ListRequest : Type 0 where
  plist_adds queue_adds : Str → ListRequest
  plist_clears queue_clears : ListRequest
  plist_deletes queue_deletes : Str → ListRequest
  plist_moves queue_moves : Str → Str → ListRequest

abbrev pub with_playlist : Player → Option Searched → Option Player
with_playlist p none = none
with_playlist p (some s) = some (record p { playlist = s })

abbrev pub with_shuffled : Player → Option Searched → Option Player
with_shuffled p none = none
with_shuffled p (some s) = some (record p { shuffled_plist = s })

abbrev pub with_queue : Player → Option Searched → Option Player
with_queue p none = none
with_queue p (some s) = some (record p { queue = s })

-- `if (num != -1) plist_delete (list, num)`
abbrev pub delete_found : Searched → Option ℤ → Option Searched
delete_found s none = none
delete_found s (some (negsuc i)) = some s
delete_found s (some (pos i)) = elim (plist_delete s.list i) [
  | none ↦ none
  | some q ↦ some (record s { list = q })
]

module _ (strcoll : Str → Str → Ordering) (w : World) where
  abbrev pub add_item : Searched → Str → Option Searched
  add_item s file = elim (plist_add strcoll w s (some file)) [ none ↦ none | some (s, n) ↦ some s ]

  -- a file that is there already is not added
  abbrev pub add_new : Searched → Str → Option Searched
  add_new s file = elim (plist_find_fname strcoll s file) [
    | none ↦ none
    | some i ↦ if is_set i then some s else add_item s file
  ]

  unfoldable pub audio_plist_add : Player → Str → Option Player
  audio_plist_add p file =
      with_playlist (record p { shuffled_plist = cleared p.shuffled_plist })
        (add_new p.playlist file)

  unfoldable pub audio_queue_add : Player → Str → Option Player
  audio_queue_add p file = with_queue p (add_new p.queue file)

  abbrev pub delete_named : Searched → Str → Option Searched
  delete_named s file = delete_found s (plist_find_fname strcoll s file)

  abbrev pub delete_shuffled : Str → Option Player → Option Player
  delete_shuffled file none = none
  delete_shuffled file (some p) = with_shuffled p (delete_named p.shuffled_plist file)

  unfoldable pub audio_plist_delete : Player → Str → Option Player
  audio_plist_delete p file = delete_shuffled file (with_playlist p (delete_named p.playlist file))

  unfoldable pub audio_queue_delete : Player → Str → Option Player
  audio_queue_delete p file = with_queue p (delete_named p.queue file)

  unfoldable pub audio_plist_move : Player → Str → Str → Option Player
  audio_plist_move p file1 file2 = with_playlist p (plist_swap_files strcoll p.playlist file1 file2)

  unfoldable pub audio_queue_move : Player → Str → Str → Option Player
  audio_queue_move p file1 file2 = with_queue p (plist_swap_files strcoll p.queue file1 file2)

unfoldable pub audio_plist_clear : Player → Player
audio_plist_clear p = record p {
  shuffled_plist = cleared p.shuffled_plist;
  playlist = cleared p.playlist;
}

unfoldable pub audio_queue_clear : Player → Player
audio_queue_clear p = record p { queue = cleared p.queue }

module _ (strcoll : Str → Str → Ordering) (w : World) where
  unfoldable pub handle : ListRequest → Player → Option Player
  handle (plist_adds file) p = audio_plist_add strcoll w p file
  handle (queue_adds file) p = audio_queue_add strcoll w p file
  handle plist_clears p = some (audio_plist_clear p)
  handle queue_clears p = some (audio_queue_clear p)
  handle (plist_deletes file) p = audio_plist_delete strcoll w p file
  handle (queue_deletes file) p = audio_queue_delete strcoll w p file
  handle (plist_moves file1 file2) p = audio_plist_move strcoll w p file1 file2
  handle (queue_moves file1 file2) p = audio_queue_move strcoll w p file1 file2

  -- the requests, one after the other
  abbrev pub handle_all : List ListRequest → Player → Option Player
  handle_all [] p = some p
  handle_all (r ∷ rs) p = elim (handle r p) [ none ↦ none | some p ↦ handle_all rs p ]
