-- ===== src/Audio/Position/Runs.antt =====
-- audio.c: where the loop of `play_thread` can leave the player, with requests that change the lists while a
-- file is played.
use Prim.Native.Nat.{Ordering}
use mocp.Prelude.{
  ℕ, ◌≡◌, refl, sym, subst, ◌∙◌, false, ◌&&◌, Option, none, some, List, [], ◌∷◌, inl, inr,
  Bool-cases, some_inj,
}
use mocp.Prelude.Int.{ℤ}
use mocp.Bytes.{Str}
use mocp.Files.{World}
use mocp.Playlist.{minus_one, is_set, plist_next}
use mocp.Playlist.SearchTree.{Searched}
use mocp.Playlist.SearchTree.Shuffle.{plist_swap_first_fname}
use mocp.Audio.Position.{
  Player, Settings, Which, in_playlist, in_shuffled, current, has_items, play_queued, reshuffled,
  cleared, go_to_another_file,
}
use mocp.Audio.Position.Thread.{
  Asked, plist_get_file, asked, and_file, is_empty, started, stop_or_go, then_go, play_turn,
  play_loop, first_item, play_from, play_shuffled, audio_play,
}
use mocp.Audio.Position.Requests.{handle_all}
use mocp.Audio.Position.Inside.{IsIn, plist_next-IsIn, find-IsIn}
use mocp.Audio.Position.Playable.{IsPlayable, take_queued-IsPlayable, go_to_another_file-IsPlayable}

module _ (strcoll : Str → Str → Ordering) (w : World) (picks : ℕ → ℕ) where
  stop_or_go-IsPlayable :
      (o : Settings) (p q : Player)
      → stop_or_go strcoll w picks (record o { repeat = false }) p ≡ some q
      → IsPlayable q
  stop_or_go-IsPlayable o p q e = elim (Bool-cases p.stop_playing) [
    | inl b ↦
        let stopped : stop_or_go strcoll w picks (record o { repeat = false }) p
            ≡ some (record p { curr_playing = minus_one }) =
          rw b refl in
        subst IsPlayable (some_inj (sym stopped ∙ e)) (inl (inl refl))
    | inr b ↦
        let goes : stop_or_go strcoll w picks (record o { repeat = false }) p
            ≡ go_to_another_file strcoll w picks (record o { repeat = false }) p =
          rw b refl in
        go_to_another_file-IsPlayable strcoll w picks o p q (sym goes ∙ e)
  ]

  then_go-IsPlayable :
      (o : Settings) (s : Option Player) (q : Player)
      → then_go strcoll w picks (record o { repeat = false }) s ≡ some q
      → IsPlayable q
  then_go-IsPlayable o none q e = cc
  then_go-IsPlayable o (some p) q e = stop_or_go-IsPlayable o p q e

  turned :
      (file : Option Str) (s : Option Player) (r : Option Str × Player)
      → ((q : Player) → s ≡ some q → IsPlayable q)
      → elim s [ none ↦ none | some q ↦ some (file, q) ] ≡ some r
      → IsPlayable r.1
  turned file none r f e = cc
  turned file (some q) r f e = subst (λ r. IsPlayable r.1) (some_inj e) (f q refl)

  play_turn-IsPlayable :
      (o : Settings) (a : Asked) (p : Player) (r : Option Str × Player)
      → play_turn strcoll w picks (record o { repeat = false }) a p ≡ some r
      → IsPlayable r.1
  unfolding play_turn
  play_turn-IsPlayable o a p r e = go (plist_get_file (current p) p.curr_playing) e
    where
      go :
          (g : Option (Option Str))
          → elim g [
            | none ↦ none
            | some file ↦
                elim (then_go strcoll w picks
                  (record o { repeat = false })
                  (handle_all strcoll w a.changes (asked a file p))) [
                    | none ↦ none
                    | some q ↦ some (file, q)
                  ]
          ]
            ≡ some r
          → IsPlayable r.1
      go none e = cc
      go (some file) e =
          turned file
            (then_go strcoll w picks (record o { repeat = false })
              (handle_all strcoll w a.changes (asked a file p)))
            r (λ q k. then_go-IsPlayable o (handle_all strcoll w a.changes (asked a file p)) q k) e

  first_item-IsIn :
      (s : Searched) (f : Str) (x : ℤ) → first_item strcoll w picks s f ≡ some x → IsIn s.list x
  first_item-IsIn s [] x e = elim (Bool-cases (has_items s)) [
    | inl b ↦
        let first : first_item strcoll w picks s [] ≡ some (plist_next s.list minus_one) =
          rw b refl in
        subst (IsIn s.list) (some_inj (sym first ∙ e)) (plist_next-IsIn s.list minus_one)
    | inr b ↦
        let no_first : first_item strcoll w picks s [] ≡ some minus_one = rw b refl in
        subst (IsIn s.list) (some_inj (sym no_first ∙ e)) (inl refl)
  ]
  first_item-IsIn s (c ∷ f) x e = find-IsIn strcoll s (c ∷ f) x e

  play_from-IsPlayable :
      (p q : Player) (which : Which) (f : Str)
      → play_from strcoll w picks p which f ≡ some q
      → IsPlayable q
  play_from-IsPlayable p q which f e = go (first_item strcoll w picks (current r) f) refl e
    where
      r : Player
      r = record p { curr_plist = which }

      go :
          (x : Option ℤ)
          → first_item strcoll w picks (current r) f ≡ x
          → elim x [ none ↦ none | some i ↦ some (record r { curr_playing = i }) ] ≡ some q
          → IsPlayable q
      go none h e = cc
      go (some i) h e = subst IsPlayable (some_inj e) (inl (first_item-IsIn (current r) f i h))

  play_shuffled-IsPlayable :
      (p q : Player) (f : Str) → play_shuffled strcoll w picks p f ≡ some q → IsPlayable q
  play_shuffled-IsPlayable p q f e =
      go (reshuffled strcoll w picks p.playlist (cleared p.shuffled_plist)) e
    where
      go_swapped :
          (s : Option Searched)
          → elim s [
            | none ↦ none
            | some s ↦ play_from strcoll w picks (record p { shuffled_plist = s }) in_shuffled f
          ]
            ≡ some q
          → IsPlayable q
      go_swapped none e = cc
      go_swapped (some s) e =
          play_from-IsPlayable (record p { shuffled_plist = s }) q in_shuffled f e

      go :
          (s : Option Searched)
          → elim s [
            | none ↦ none
            | some s ↦ elim (plist_swap_first_fname strcoll s f) [
              | none ↦ none
              | some s ↦ play_from strcoll w picks (record p { shuffled_plist = s }) in_shuffled f
            ]
          ]
            ≡ some q
          → IsPlayable q
      go none e = cc
      go (some s) e = go_swapped (plist_swap_first_fname strcoll s f) e

  started-IsPlayable :
      (s : Option Player) (q : Player)
      → ((p : Player) → s ≡ some p → IsPlayable p)
      → started s ≡ some q
      → IsPlayable q
  started-IsPlayable none q f e = cc
  started-IsPlayable (some p) q f e = subst IsPlayable (some_inj e) (f p refl)

  audio_play-IsPlayable :
      (o : Settings) (p q : Player) (f : Str)
      → audio_play strcoll w picks o p f ≡ some q
      → IsPlayable q
  unfolding audio_play
  audio_play-IsPlayable o p q f e = elim (Bool-cases (has_items p.queue && is_empty f)) [
    | inl b ↦
        let queued : audio_play strcoll w picks o p f ≡ started (play_queued p) =
          rw (audio_play, b) refl in
        started-IsPlayable (play_queued p) q
          (λ p' k.
            take_queued-IsPlayable strcoll w picks p p' (plist_next p.queue.list minus_one) k)
          (sym queued ∙ e)
    | inr b ↦ elim (Bool-cases o.shuffle) [
      | inl c ↦
          let shuffled : audio_play strcoll w picks o p f ≡ play_shuffled strcoll w picks p f =
            rw (audio_play, b, c) refl in
          play_shuffled-IsPlayable p q f (sym shuffled ∙ e)
      | inr c ↦
          let in_order : audio_play strcoll w picks o p f
              ≡ play_from strcoll w picks p in_playlist f =
            rw (audio_play, b, c) refl in
          play_from-IsPlayable p q in_playlist f (sym in_order ∙ e)
    ]
  ]

  -- the files and the state behind a turn and the rest of the loop
  then_played :
      (file : Option Str) (s : Option (List Str × Player)) (r : List Str × Player)
      → ((t : List Str × Player) → s ≡ some t → IsPlayable t.1)
      → elim s [ none ↦ none | some (files, q) ↦ some (and_file file files, q) ] ≡ some r
      → IsPlayable r.1
  then_played file none r f e = cc
  then_played file (some t) r f e = subst (λ r. IsPlayable r.1) (some_inj e) (f t refl)

  play_loop-IsPlayable :
      (o : Settings) (asks : List Asked) (p : Player) (r : List Str × Player)
      → IsPlayable p
      → play_loop strcoll w picks (record o { repeat = false }) asks p ≡ some r
      → IsPlayable r.1
  unfolding play_loop
  play_loop-IsPlayable o [] p r h e = subst (λ r. IsPlayable r.1) (some_inj e) h
  play_loop-IsPlayable o (a ∷ asks) p r h e = elim (Bool-cases (is_set p.curr_playing)) [
    | inl b ↦
        let round : play_loop strcoll w picks (record o { repeat = false }) (a ∷ asks) p
            ≡ elim (play_turn strcoll w picks (record o { repeat = false }) a p) [
              | none ↦ none
              | some (file, q) ↦
                  elim (play_loop strcoll w picks (record o { repeat = false }) asks q) [
                    | none ↦ none
                    | some (files, t) ↦ some (and_file file files, t)
                  ]
            ] =
          rw (play_loop, b) refl in
        go (play_turn strcoll w picks (record o { repeat = false }) a p) refl
          (λ q t k m. play_loop-IsPlayable o asks q t k m) (sym round ∙ e)
    | inr b ↦
        let ended : play_loop strcoll w picks (record o { repeat = false }) (a ∷ asks) p
            ≡ some ([], p) =
          rw (play_loop, b) refl in
        subst (λ r. IsPlayable r.1) (some_inj (sym ended ∙ e)) h
  ]
    where
      go :
          (t : Option (Option Str × Player))
          → play_turn strcoll w picks (record o { repeat = false }) a p ≡ t
          → ((q : Player) (u : List Str × Player)
              → IsPlayable q
              → play_loop strcoll w picks (record o { repeat = false }) asks q ≡ some u
              → IsPlayable u.1)
          → elim t [
            | none ↦ none
            | some (file, q) ↦
                elim (play_loop strcoll w picks (record o { repeat = false }) asks q) [
                  | none ↦ none
                  | some (files, u) ↦ some (and_file file files, u)
                ]
          ]
            ≡ some r
          → IsPlayable r.1
      go none k ih e = cc
      go (some (file, q)) k ih e =
          then_played file (play_loop strcoll w picks (record o { repeat = false }) asks q) r
            (λ u m. ih q u (play_turn-IsPlayable o a p (file, q) k) m) e

  -- Where Repeat is off, after audio_play for any file and any number of turns of the loop of
  -- play_thread, whatever the other options are, as long as they do not change, and whatever is
  -- asked for while the files are played, to stop or to go to the next or the previous file or to
  -- add files to the playlist or the queue, clear these lists, delete files from them or swap two:
  -- when nothing aborts, curr_playing is -1, or the number of an item that is not deleted in the
  -- list that curr_plist points to, or that of a deleted item of the queue, to which curr_plist
  -- then points.
  pub play_loop-audio_play-IsPlayable :
      (o : Settings) (p q : Player) (f : Str) (asks : List Asked) (r : List Str × Player)
      → audio_play strcoll w picks (record o { repeat = false }) p f ≡ some q
      → play_loop strcoll w picks (record o { repeat = false }) asks q ≡ some r
      → IsPlayable r.1
  play_loop-audio_play-IsPlayable o p q f asks r e k =
      play_loop-IsPlayable o asks q r (audio_play-IsPlayable (record o { repeat = false }) p q f e)
        k
