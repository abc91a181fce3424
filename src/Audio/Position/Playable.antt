-- ===== src/Audio/Position/Playable.antt =====
-- audio.c: where `go_to_another_file` can leave the player.
use Prim.Native.Nat.{Ordering}
use mocp.Prelude.{
  true, ◌<◌, ◌⊎◌, some_inj, and_false, ℕ, ◌≡◌, refl, sym, ◌∙◌, subst, Bool, false, not, ◌&&◌, ◌||◌,
  Option, none, some, if◌then◌else◌, arith, Bool-cases, inl, inr,
}
use mocp.Prelude.Int.{ℤ, pos, negsuc}
use mocp.Bytes.{Str}
use mocp.Files.{World}
use mocp.Playlist.{Plist, num, deleted_at, minus_one, is_set, plist_next, plist_prev, plist_delete}
use mocp.Playlist.SearchTree.{Searched}
use mocp.Audio.Position.{
  Player, Settings, in_queue, current, has_items, is_some, take_queued, play_queued, start_of,
  placed, forget_queue, find_named, find_current, go_back, go_on, move, move_in_list, choose_list,
  come_back, remembered, go_to_another_file,
}
use mocp.Audio.Position.Inside.{
  IsIn, if_same, plist_next-IsIn, plist_prev-IsIn, plist_delete-deleted_at, find-IsIn,
}

-- the number of an item that was taken from the queue, and is deleted there
abbrev pub IsTaken : Player → Type 0
IsTaken p =
    (i : ℕ) × (p.curr_plist ≡ in_queue)
    × (p.curr_playing ≡ pos i)
    × (i < num p.queue.list)
    × (deleted_at p.queue.list.items i ≡ true)

-- The player is stopped, or stands at an item of its list that is not deleted, or at one that was taken from
-- the queue.
abbrev pub IsPlayable : Player → Type 0
IsPlayable p = IsIn (current p).list p.curr_playing ⊎ IsTaken p

module _ (strcoll : Str → Str → Ordering) where
  module _ (w : World) (picks : ℕ → ℕ) where
    pub take_queued-IsPlayable : (p q : Player) (x : ℤ) → take_queued p x ≡ some q → IsPlayable q
    take_queued-IsPlayable p q (negsuc i) e = cc
    take_queued-IsPlayable p q (pos i) e = go (plist_delete p.queue.list i) refl e
      where
        go :
            (o : Option Plist)
            → plist_delete p.queue.list i ≡ o
            → elim o [
              | none ↦ none
              | some l ↦ some (record p {
                curr_plist = in_queue;
                curr_playing = pos i;
                queue = record p.queue { list = l };
              })
            ]
              ≡ some q
            → IsPlayable q
        go none h e = cc
        go (some l) h e =
            let (same, b, d) = plist_delete-deleted_at p.queue.list l i h in
            subst IsPlayable (some_inj e) (inr (i, refl, refl, omega arith, d))

    find_named-IsIn :
        (s : Searched) (f : Option Str) (x : ℤ)
        → find_named strcoll w picks s f ≡ some x
        → IsIn s.list x
    find_named-IsIn s none x e = cc
    find_named-IsIn s (some f) x e = find-IsIn strcoll s f x e

    find_current-IsIn :
        (p : Player) (x : ℤ) → find_current strcoll w picks p ≡ some x → IsIn (current p).list x
    find_current-IsIn p x e =
        go (find_named strcoll w picks (current p) p.curr_playing_fname) refl e
      where
        go :
            (o : Option ℤ)
            → find_named strcoll w picks (current p) p.curr_playing_fname ≡ o
            → elim o [
              | none ↦ none
              | some at ↦
                  if not (is_set at) && is_some p.before_queue_fname
                  then find_named strcoll w picks (current p) p.before_queue_fname
                  else some at
            ]
              ≡ some x
            → IsIn (current p).list x
        go none h e = cc
        go (some at) h e = elim (Bool-cases (not (is_set at) && is_some p.before_queue_fname)) [
          | inl b ↦ find_named-IsIn (current p) p.before_queue_fname x (sym (rw b refl) ∙ e)
          | inr b ↦ find_named-IsIn (current p) p.curr_playing_fname x (h ∙ sym (rw b refl) ∙ e)
        ]

    start-IsIn :
        (p : Player) (x : ℤ) → IsIn (current p).list x → IsIn (current p).list (start_of p x)
    start-IsIn p x h = elim (Bool-cases (not (is_set x) || p.started_playing_in_queue)) [
      | inl b ↦ rw b (inl refl)
      | inr b ↦ rw b h
    ]

    -- Repeat is off
    abbrev pub once : Settings → Settings
    once o = record o { repeat = false }

    go_back-IsPlayable :
        (o : Settings) (p : Player) (x : ℤ)
        → IsIn (current p).list x
        → IsPlayable (go_back strcoll w picks (once o) p x)
    go_back-IsPlayable o p x h =
        let i = plist_prev (current p).list (start_of p x) in
        inl (
          subst (IsIn (current p).list) (if_same (is_set i) i)
            (plist_prev-IsIn (current p).list (start_of p x) (start-IsIn p x h)))

    go_on-IsPlayable :
        (o : Settings) (p q : Player) (x : ℤ)
        → go_on strcoll w picks (once o) p x ≡ some q
        → IsPlayable q
    go_on-IsPlayable o p q x e =
        let i = plist_next (current p).list (start_of p x) in
        let placed_there : go_on strcoll w picks (once o) p x ≡ some (placed p x i) =
          rw (and_false (not (is_set i))) refl in
        subst IsPlayable (some_inj (sym placed_there ∙ e))
          (inl (plist_next-IsIn (current p).list (start_of p x)))

    move-IsPlayable :
        (o : Settings) (g : Bool) (p q : Player) (x : ℤ)
        → IsIn (current p).list x
        → move strcoll w picks (once o) g p x ≡ some q
        → IsPlayable q
    move-IsPlayable o g p q x h e = elim (Bool-cases (p.play_prev && has_items (current p))) [
      | inl b ↦
          let back : move strcoll w picks (once o) g p x
              ≡ some (go_back strcoll w picks (once o) p x) =
            rw b refl in
          subst IsPlayable (some_inj (sym back ∙ e)) (go_back-IsPlayable o p x h)
      | inr b ↦ elim (Bool-cases (g && has_items (current p))) [
        | inl c ↦
            let on : move strcoll w picks (once o) g p x ≡ go_on strcoll w picks (once o) p x =
              rw (b, c) refl in
            go_on-IsPlayable o p q x (sym on ∙ e)
        | inr c ↦
            let stopped : move strcoll w picks (once o) g p x
                ≡ some (record p { curr_playing = minus_one }) =
              rw (b, c) refl in
            subst IsPlayable (some_inj (sym stopped ∙ e)) (inl (inl refl))
      ]
    ]

    forget_queue-IsPlayable :
        (r : Option Player) (q : Player)
        → ((p : Player) → r ≡ some p → IsPlayable p)
        → forget_queue r ≡ some q
        → IsPlayable q
    forget_queue-IsPlayable none q f e = cc
    forget_queue-IsPlayable (some p) q f e = subst IsPlayable (some_inj e) (f p refl)

    move_in_list-IsPlayable :
        (o : Settings) (g : Bool) (r : Option Player) (q : Player)
        → move_in_list strcoll w picks (once o) g r ≡ some q
        → IsPlayable q
    move_in_list-IsPlayable o g none q e = cc
    move_in_list-IsPlayable o g (some p) q e = go (find_current strcoll w picks p) refl e
      where
        go :
            (x : Option ℤ)
            → find_current strcoll w picks p ≡ x
            → elim x [ none ↦ none | some at ↦ forget_queue (move strcoll w picks (once o) g p at) ]
              ≡ some q
            → IsPlayable q
        go none h e = cc
        go (some at) h e =
            forget_queue-IsPlayable (move strcoll w picks (once o) g p at) q
              (λ p' k. move-IsPlayable o g p p' at (find_current-IsIn p at h) k) e

    -- Where Repeat is off, `go_to_another_file` leaves the player stopped or at an item of its list.
    pub go_to_another_file-IsPlayable :
        (o : Settings) (p q : Player)
        → go_to_another_file strcoll w picks (record o { repeat = false }) p ≡ some q
        → IsPlayable q
    unfolding go_to_another_file
    go_to_another_file-IsPlayable o p q e =
        let g = p.play_next || o.auto_next in
        elim (Bool-cases (has_items p.queue && g)) [
          | inl b ↦
              let r = record p {
                before_queue_fname = remembered p.before_queue_fname p.curr_playing_fname;
              } in
              let queued : go_to_another_file strcoll w picks (once o) p ≡ play_queued r =
                rw (go_to_another_file, b) refl in
              take_queued-IsPlayable r q (plist_next r.queue.list minus_one) (sym queued ∙ e)
          | inr b ↦
              let c = choose_list strcoll w picks (once o) (come_back (once o) p) in
              let moved : go_to_another_file strcoll w picks (once o) p
                  ≡ move_in_list strcoll w picks (once o) g c =
                rw (go_to_another_file, b) refl in
              move_in_list-IsPlayable o g c q (sym moved ∙ e)
        ]
