-- ===== src/Audio/Tests.antt =====
-- The choice of a format and of the next file in audio.c at concrete inputs.
use Prim.Native.Nat.{Ordering, compare}
use mocp.Prelude.{
  some_inj, zero, suc, ◌+◌, ◌≡◌, refl, sym, ap, ◌∙◌, Bool, true, false, none, some, [], ◌∷◌, length,
  replicate, arith,
}
use mocp.Prelude.Int.{pos}
use mocp.Bytes.{Str}
use mocp.Files.{World}
use mocp.Item.{plist_new_item}
use mocp.RbTree.{leaf, node, red, black, rb_search, search_from}
use mocp.Playlist.SearchTree.Swap.{plist_swap_files, change_at}
use mocp.Playlist.{plist_swap, minus_one, plist_init, plist_count, plist_next, skip_deleted}
use mocp.Playlist.SearchTree.{Searched, plist_find_fname}
use mocp.Sound.{Format}
use mocp.Sound.Format.{s16, s24}
use mocp.Audio.Formats.{has_bit, sfmt_best_matching}
use mocp.Audio.Formats.Best.{IsBest, sfmt_best_matching-IsBest}
use mocp.Audio.Position.{Player, in_playlist, in_queue, go_to_another_file}
use mocp.Audio.Position.Requests.{plist_moves, handle, audio_plist_move}
use mocp.Audio.Position.Thread.{Asked, play_turn, play_loop, audio_play}
use mocp.Audio.Position.Playable.{IsPlayable}
use mocp.Audio.Position.Runs.{play_loop-audio_play-IsPlayable}
use mocp.Audio.Position.Stuck.{repeat_one, from_queue, play_loop_stuck}
use mocp.Audio.Position.InOrder.{
  auto_next, quiet, player_at, live_files, IsFindable, play_loop-live_files,
}

-- 8 and 16 bits are there, little-endian; 24 bits are asked for
sfmt_best_matching-IsBest_example :
    (r : Format × (Bool × Bool)) × (sfmt_best_matching (1 + (4 + 4096)) s24 ≡ some r)
    × IsBest (1 + (4 + 4096)) s24 s16 r
unfolding has_bit
sfmt_best_matching-IsBest_example = sfmt_best_matching-IsBest (1 + (4 + 4096)) s24 s16 refl refl

by_length : Str → Str → Ordering
by_length a b = compare (length a) (length b)

abbrev nothing_there : World
nothing_there = record { stat = λ f. none; is_sound_file = λ f. false }

abbrev no_items : Searched
no_items = record { list = plist_init; search_tree = leaf }

-- two files, and a deleted item between them
abbrev two_files : Searched
two_files = record {
  list = record plist_init {
    items =
        record plist_new_item { file = some (47 ∷ []) }
        ∷ record plist_new_item { file = some (47 ∷ 97 ∷ 98 ∷ []); deleted = true }
        ∷ record plist_new_item { file = some (47 ∷ 97 ∷ []) }
        ∷ [];
    not_deleted = pos 2;
  };
  search_tree = node black (node red leaf 0 leaf) 2 (node red leaf 1 leaf);
}

true_not : ¬ (true ≡ false)
true_not e = cc

two_files-IsFindable : IsFindable by_length two_files
unfolding plist_find_fname rb_search search_from by_length plist_new_item plist_init
two_files-IsFindable zero item e d = (47 ∷ [], sym (ap (λ x. x.file) (some_inj e)), refl)
two_files-IsFindable (suc zero) item e d = absurd (true_not (ap (λ x. x.deleted) (some_inj e) ∙ d))
two_files-IsFindable (suc (suc zero)) item e d =
    (47 ∷ 97 ∷ [], sym (ap (λ x. x.file) (some_inj e)), refl)
two_files-IsFindable (suc (suc (suc i))) item e d = cc

play_loop-live_files_example :
    (p : Player) × (audio_play by_length nothing_there
        (λ i. 0)
        (auto_next true)
        (player_at two_files no_items no_items in_queue none minus_one)
        []
      ≡ some p)
    × (last : Player) × (play_loop by_length nothing_there
          (λ i. 0)
          (auto_next true)
          (replicate 3 quiet)
          p
        ≡ some (live_files two_files.list.items, last))
    × (last.curr_playing ≡ minus_one)
unfolding plist_count plist_init
play_loop-live_files_example =
    play_loop-live_files by_length nothing_there (λ i. 0) two_files no_items no_items true 3
      in_queue refl refl two_files-IsFindable (omega arith)

-- its files in the other order
abbrev moved_files : Searched
moved_files = record {
  list = record plist_init {
    items =
        record plist_new_item { file = some (47 ∷ 97 ∷ []) }
        ∷ record plist_new_item { file = some (47 ∷ 97 ∷ 98 ∷ []); deleted = true }
        ∷ record plist_new_item { file = some (47 ∷ []) }
        ∷ [];
    not_deleted = pos 2;
  };
  search_tree = node black (node red leaf 2 leaf) 0 (node red leaf 1 leaf);
}

-- the two files change places while the second is played
abbrev busy : Asked
busy = record quiet { changes = plist_moves (47 ∷ []) (47 ∷ 97 ∷ []) ∷ [] }

play_loop-audio_play-IsPlayable_example :
    IsPlayable (player_at moved_files no_items no_items in_playlist (some (47 ∷ 97 ∷ [])) (pos 2))
unfolding audio_play play_loop play_turn go_to_another_file plist_count plist_init plist_find_fname
    rb_search search_from by_length plist_new_item plist_next skip_deleted handle audio_plist_move
    plist_swap_files plist_swap change_at
play_loop-audio_play-IsPlayable_example =
    play_loop-audio_play-IsPlayable by_length nothing_there (λ i. 0) (auto_next true)
      (player_at two_files no_items no_items in_queue none minus_one)
      (player_at two_files no_items no_items in_playlist none (pos 2)) (47 ∷ 97 ∷ []) (busy ∷ [])
      (
        (47 ∷ 97 ∷ []) ∷ [],
        player_at moved_files no_items no_items in_playlist (some (47 ∷ 97 ∷ [])) (pos 2),
      )
      refl refl

play_loop_stuck_example :
    (last : Player) × (play_loop by_length nothing_there
        (λ i. 0)
        (repeat_one false)
        (replicate 9 quiet)
        (from_queue no_items no_items two_files in_queue none 2)
      ≡ some ((47 ∷ 97 ∷ []) ∷ [], last))
    × (last.curr_playing ≡ pos 2)
unfolding plist_find_fname rb_search search_from plist_new_item plist_init
play_loop_stuck_example =
    play_loop_stuck by_length nothing_there (λ i. 0) no_items no_items two_files false 8 2
      (record plist_new_item { file = some (47 ∷ 97 ∷ []) }) (47 ∷ 97 ∷ []) refl refl refl refl
