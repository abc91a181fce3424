-- ===== src/Audio/Position.antt =====
-- audio.c: which file comes next: `go_to_another_file`. A function returns `none` where an assertion fails or
-- an item is used that is not there.
pub mod Requests
pub mod Thread
pub mod Inside
pub mod InOrder
pub mod Playable
pub mod Stuck
pub mod Runs
use Prim.Native.Nat.{Ordering}
use mocp.Prelude.{
  ℕ, zero, suc, ◌==◌, Bool, true, false, not, ◌&&◌, ◌||◌, Option, none, some, List, [], ◌∷◌,
  get_elem?, if◌then◌else◌,
}
use mocp.Prelude.Int.{ℤ, pos, negsuc, eqb_ℤ}
use mocp.Bytes.{Str}
use mocp.Files.{World}
use mocp.Item.{PlistItem}
use mocp.RbTree.{leaf}
use mocp.Playlist.{
  Plist, num, minus_one, is_set, plist_count, plist_next, plist_prev, plist_last, plist_delete,
  plist_clear,
}
use mocp.Playlist.SearchTree.{Searched, plist_find_fname, plist_cat}
use mocp.Playlist.SearchTree.Shuffle.{plist_shuffle, plist_swap_first_fname}

-- the list that `curr_plist` points to
pub data Which : Type 0 where
  in_playlist in_shuffled in_queue : Which

-- the variables of audio.c that the choice reads and sets
pub record Player : Type 0 where
  pub curr_playing : ℤ
  pub before_queue_fname : Option Str
  pub curr_playing_fname : Option Str
  pub started_playing_in_queue : Bool
  pub stop_playing : Bool
  pub play_next : Bool
  pub play_prev : Bool
  pub playlist : Searched
  pub shuffled_plist : Searched
  pub queue : Searched
  pub curr_plist : Which

-- the options that are read
pub record Settings : Type 0 where
  pub shuffle : Bool
  pub auto_next : Bool
  pub repeat : Bool
  pub queue_next_song_return : Bool

abbrev pub current : Player → Searched
current p = elim p.curr_plist [
  | in_playlist ↦ p.playlist
  | in_shuffled ↦ p.shuffled_plist
  | in_queue ↦ p.queue
]

-- `plist_count (plist)` as a condition
abbrev pub has_items : Searched → Bool
has_items s = not (eqb_ℤ (plist_count s.list) (pos 0))

abbrev pub is_some : {A : Type 0} → Option A → Bool
is_some none = false
is_some (some a) = true

-- `curr_playing = plist_next (&queue, -1); plist_delete (&queue, curr_playing);`
abbrev pub take_queued : Player → ℤ → Option Player
take_queued p (negsuc i) = none
take_queued p (pos i) = elim (plist_delete p.queue.list i) [
  | none ↦ none
  | some q ↦ some (record p {
    curr_plist = in_queue;
    curr_playing = pos i;
    queue = record p.queue { list = q };
  })
]

abbrev pub play_queued : Player → Option Player
play_queued p = take_queued p (plist_next p.queue.list minus_one)

-- the file that is played before the queue
abbrev pub remembered : Option Str → Option Str → Option Str
remembered none fname = fname
remembered (some f) fname = some f

-- the file played before the queue comes back, if `QueueNextSongReturn` is set
abbrev pub come_back : Settings → Player → Player
come_back o p =
    if is_some p.before_queue_fname && o.queue_next_song_return
    then record p { curr_playing_fname = p.before_queue_fname; before_queue_fname = none }
    else p

-- `plist_next` or `plist_prev` from the item, or from the end of the list
abbrev pub start_of : Player → ℤ → ℤ
start_of p at = if not (is_set at) || p.started_playing_in_queue then minus_one else at

abbrev pub cleared : Searched → Searched
cleared s = record { list = plist_clear s.list; search_tree = leaf }

-- `started_playing_in_queue` is reset where the end of the list is taken for the position.
abbrev pub placed : Player → ℤ → ℤ → Player
placed p at i = record p {
  curr_playing = i;
  started_playing_in_queue =
      if not (is_set at) || p.started_playing_in_queue then false else p.started_playing_in_queue;
}

abbrev pub forget_queue : Option Player → Option Player
forget_queue none = none
forget_queue (some p) = some (record p { before_queue_fname = none })

module _ (strcoll : Str → Str → Ordering) (w : World) (picks : ℕ → ℕ) where
  -- `plist_clear`, `plist_cat` and `plist_shuffle` of the shuffled list
  abbrev pub reshuffled : Searched → Searched → Option Searched
  reshuffled playlist s = elim (plist_cat strcoll w s playlist) [
    | none ↦ none
    | some s ↦ plist_shuffle strcoll picks s
  ]

  -- `if (curr_playing_fname) plist_swap_first_fname (&shuffled_plist, curr_playing_fname)`
  abbrev pub first_if : Option Str → Searched → Option Searched
  first_if none s = some s
  first_if (some f) s = plist_swap_first_fname strcoll s f

  -- the shuffled list is filled when it is empty
  abbrev pub fill_shuffled : Player → Option Searched
  fill_shuffled p =
      if has_items p.playlist && not (has_items p.shuffled_plist)
      then elim (reshuffled p.playlist p.shuffled_plist) [
        | none ↦ none
        | some s ↦ first_if p.curr_playing_fname s
      ]
      else some p.shuffled_plist

  abbrev pub choose_list : Settings → Player → Option Player
  choose_list o p =
      if o.shuffle
      then elim (fill_shuffled p) [
        | none ↦ none
        | some s ↦ some (record p { shuffled_plist = s; curr_plist = in_shuffled })
      ]
      else some (record p { curr_plist = in_playlist })

  -- `plist_find_fname`, which asserts that the name is not NULL
  abbrev pub find_named : Searched → Option Str → Option ℤ
  find_named s none = none
  find_named s (some f) = plist_find_fname strcoll s f

  -- the position of the file, or else of the one before the queue
  abbrev pub find_current : Player → Option ℤ
  find_current p = elim (find_named (current p) p.curr_playing_fname) [
    | none ↦ none
    | some at ↦
        if not (is_set at) && is_some p.before_queue_fname
        then find_named (current p) p.before_queue_fname
        else some at
  ]

  -- "Playing previous..."
  abbrev pub go_back : Settings → Player → ℤ → Player
  go_back o p at =
      let i = plist_prev (current p).list (start_of p at) in
      placed p at (if is_set i then i else if o.repeat then plist_last (current p).list else i)

  -- from the end of the list to its first item, if `Repeat` is set
  abbrev pub from_start : Settings → Player → Option Player
  from_start o p =
      if o.shuffle
      then elim (reshuffled p.playlist (cleared p.shuffled_plist)) [
        | none ↦ none
        | some s ↦
            let q = record p { shuffled_plist = s } in
            some (record q { curr_playing = plist_next (current q).list minus_one })
      ]
      else some (record p { curr_playing = plist_next (current p).list minus_one })

  -- "Playing next..."
  abbrev pub go_on : Settings → Player → ℤ → Option Player
  go_on o p at =
      let i = plist_next (current p).list (start_of p at) in
      if not (is_set i) && o.repeat then from_start o (placed p at i) else some (placed p at i)

  -- the move in the list that has been chosen
  abbrev pub move : Settings → Bool → Player → ℤ → Option Player
  move o go_next p at =
      if p.play_prev && has_items (current p)
      then some (go_back o p at)
      else if go_next && has_items (current p)
      then go_on o p at
      else if not o.repeat
      then some (record p { curr_playing = minus_one })
      else some p

  abbrev pub move_in_list : Settings → Bool → Option Player → Option Player
  move_in_list o go_next none = none
  move_in_list o go_next (some p) = elim (find_current p) [
    | none ↦ none
    | some at ↦ forget_queue (move o go_next p at)
  ]

  unfoldable pub go_to_another_file : Settings → Player → Option Player
  go_to_another_file o p =
      let go_next = p.play_next || o.auto_next in
      if has_items p.queue && go_next
      then play_queued
          (record p { before_queue_fname = remembered p.before_queue_fname p.curr_playing_fname })
      else move_in_list o go_next (choose_list o (come_back o p))
