-- ===== src/Audio/Position/Thread.antt =====
-- audio.c: the loop of `play_thread`, and `audio_play`, which starts it.
use Prim.Native.Nat.{Ordering}
use mocp.Prelude.{
  ℕ, Bool, true, false, ◌&&◌, ◌||◌, Option, none, some, List, [], ◌∷◌, get_elem?, if◌then◌else◌,
}
use mocp.Prelude.Int.{ℤ, pos, negsuc}
use mocp.Bytes.{Str}
use mocp.Files.{World}
use mocp.Playlist.{minus_one, is_set, plist_next}
use mocp.Playlist.SearchTree.{Searched, plist_find_fname}
use mocp.Playlist.SearchTree.Shuffle.{plist_swap_first_fname}
use mocp.Audio.Position.{
  Which, Player, Settings, current, has_items, play_queued, cleared, reshuffled, go_to_another_file,
  in_playlist, in_shuffled,
}
use mocp.Audio.Position.Requests.{ListRequest, handle_all}

-- What is asked for while a file is played: `audio_stop`, `audio_next` and `audio_prev`, and the changes of
-- the lists.
pub record Asked : Type 0 where
  pub stop : Bool
  pub next : Bool
  pub prev : Bool
  pub changes : List ListRequest

-- `plist_get_file`: NULL behind the end of the list
abbrev pub plist_get_file : Searched → ℤ → Option (Option Str)
plist_get_file s (negsuc i) = none
plist_get_file s (pos i) = elim (get_elem? s.list.items i) [
  | none ↦ some none
  | some item ↦ some item.file
]

-- while the file is played
abbrev pub asked : Asked → Option Str → Player → Player
asked a none p = record p {
  stop_playing = p.stop_playing || a.stop;
  play_next = false;
  play_prev = false;
}
asked a (some f) p = record p {
  curr_playing_fname = some f;
  stop_playing = p.stop_playing || a.stop;
  play_next = a.next;
  play_prev = a.prev;
}

abbrev pub and_file : Option Str → List Str → List Str
and_file none files = files
and_file (some f) files = f ∷ files

-- `*fname == 0`
abbrev pub is_empty : Str → Bool
is_empty [] = true
is_empty (c ∷ f) = false

abbrev pub started : Option Player → Option Player
started none = none
started (some p) = some (record p { started_playing_in_queue = true })

module _ (strcoll : Str → Str → Ordering) (w : World) (picks : ℕ → ℕ) where
  -- the end of a turn of `play_thread`
  abbrev pub stop_or_go : Settings → Player → Option Player
  stop_or_go o p =
      if p.stop_playing
      then some (record p { curr_playing = minus_one })
      else go_to_another_file strcoll w picks o p

  abbrev pub then_go : Settings → Option Player → Option Player
  then_go o none = none
  then_go o (some p) = stop_or_go o p

  -- A turn of the loop of `play_thread`, with the file that is played, if there is one.
  unfoldable pub play_turn : Settings → Asked → Player → Option (Option Str × Player)
  play_turn o a p = elim (plist_get_file (current p) p.curr_playing) [
    | none ↦ none
    | some file ↦ elim (then_go o (handle_all strcoll w a.changes (asked a file p))) [
      | none ↦ none
      | some q ↦ some (file, q)
    ]
  ]

  -- the loop of `play_thread` with what is asked for in each of its turns, until the last of them:
  -- the files that are played, and the state behind them
  unfoldable pub play_loop : Settings → List Asked → Player → Option (List Str × Player)
  play_loop o [] p = some ([], p)
  play_loop o (a ∷ as') p =
      if is_set p.curr_playing
      then elim (play_turn o a p) [
        | none ↦ none
        | some (file, q) ↦ elim (play_loop o as' q) [
          | none ↦ none
          | some (files, r) ↦ some (and_file file files, r)
        ]
      ]
      else some ([], p)

  -- the item to begin with, in the list that `audio_play` has chosen
  abbrev pub first_item : Searched → Str → Option ℤ
  first_item s [] = if has_items s then some (plist_next s.list minus_one) else some minus_one
  first_item s (c ∷ f) = plist_find_fname strcoll s (c ∷ f)

  abbrev pub play_from : Player → Which → Str → Option Player
  play_from p which fname =
      let q = record p { curr_plist = which } in
      elim (first_item (current q) fname) [
        | none ↦ none
        | some i ↦ some (record q { curr_playing = i })
      ]

  abbrev pub play_shuffled : Player → Str → Option Player
  play_shuffled p fname = elim (reshuffled strcoll w picks p.playlist (cleared p.shuffled_plist)) [
    | none ↦ none
    | some s ↦ elim (plist_swap_first_fname strcoll s fname) [
      | none ↦ none
      | some s ↦ play_from (record p { shuffled_plist = s }) in_shuffled fname
    ]
  ]

  -- `audio_play`, behind `audio_stop`
  unfoldable pub audio_play : Settings → Player → Str → Option Player
  audio_play o p fname =
      if has_items p.queue && is_empty fname
      then started (play_queued p)
      else if o.shuffle
      then play_shuffled p fname
      else play_from p in_playlist fname
