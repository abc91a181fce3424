-- ===== src/Audio/Position/Inside.antt =====
-- playlist.c: the numbers that `plist_next`, `plist_prev` and `plist_find_fname` return are -1 or those of
-- items that are not deleted.
use Prim.Native.Nat.{Ordering}
use mocp.Prelude.{
  some_inj, ℕ, ◌≤◌, ◌<◌, ◌≡◌, refl, sym, ap, ◌∙◌, subst, ◌⊎◌, Bool, true, false, Option, none, some,
  get_elem?, lt_of_get_elem?, get_elem?-set_self, length-set, leb, ltb, if◌then◌else◌, arith,
  Bool-cases, inl, inr,
}
use mocp.Prelude.Int.{ℤ, pos, pos_part}
use mocp.Bytes.{Str}
use mocp.Item.{PlistItem}
use mocp.RbTree.{rb_get_data, rb_search}
use mocp.Playlist.{
  Plist, num, minus_one, is_deleted, deleted_at, after, mark_deleted, plist_next, plist_prev,
  plist_delete,
}
use mocp.Playlist.Walk.{FirstFrom, LastBefore, plist_next-FirstFrom, plist_prev-LastBefore}
use mocp.Playlist.SearchTree.{Searched, order_of, plist_find_fname}

-- -1, or the number of an item of the list that is not deleted
abbrev pub IsIn : Plist → ℤ → Type 0
IsIn l x = (x ≡ minus_one) ⊎ ((i : ℕ) × (x ≡ pos i) × (i < num l) × (deleted_at l.items i ≡ false))

pub if_same : (b : Bool) (x : ℤ) → x ≡ (if b then x else x)
if_same true x = refl
if_same false x = refl

FirstFrom-IsIn : (l : Plist) (k : ℕ) (x : ℤ) → FirstFrom l.items k x → IsIn l x
FirstFrom-IsIn l k _ (FirstFrom.found i h b d s) = inr (i, refl, b, d)
FirstFrom-IsIn l k _ (FirstFrom.none_left s) = inl refl

LastBefore-IsIn : (l : Plist) (k : ℕ) (x : ℤ) → k ≤ num l → LastBefore l.items k x → IsIn l x
LastBefore-IsIn l k _ b (LastBefore.found i h d s) = inr (i, refl, omega arith, d)
LastBefore-IsIn l k _ b (LastBefore.none_left s) = inl refl

pub plist_next-IsIn : (l : Plist) (n : ℤ) → IsIn l (plist_next l n)
plist_next-IsIn l n = FirstFrom-IsIn l (after n) (plist_next l n) (plist_next-FirstFrom l n)

pub plist_prev-IsIn : (l : Plist) (n : ℤ) → IsIn l n → IsIn l (plist_prev l n)
plist_prev-IsIn l n h =
    LastBefore-IsIn l (pos_part n) (plist_prev l n)
      (elim h [
        | inl e ↦ subst (λ n. pos_part n ≤ num l) (sym e) (omega arith)
        | inr (i, e, b, d) ↦ subst (λ n. pos_part n ≤ num l) (sym e) (omega arith)
      ])
      (plist_prev-LastBefore l n)

pub plist_delete-deleted_at :
    (l l' : Plist) (i : ℕ)
    → plist_delete l i ≡ some l'
    → (num l' ≡ num l) × (i < num l) × (deleted_at l'.items i ≡ true)
unfolding plist_delete
plist_delete-deleted_at l l' i e = go (get_elem? l.items i) refl e
  where
    go :
        (o : Option PlistItem)
        → get_elem? l.items i ≡ o
        → elim o [
          | none ↦ none
          | some item ↦
              if item.deleted
              then none
              else if leb (pos_part l.not_deleted) 0
              then none
              else some (mark_deleted l i item)
        ]
          ≡ some l'
        → (num l' ≡ num l) × (i < num l) × (deleted_at l'.items i ≡ true)
    go none h e = cc
    go (some item) h e = elim (Bool-cases item.deleted) [
      | inl d ↦ absurd (ground arith)
      | inr d ↦ elim (Bool-cases (leb (pos_part l.not_deleted) 0)) [
        | inl n ↦ absurd (ground arith)
        | inr n ↦
            let deleted : (if item.deleted
                  then none
                  else if leb (pos_part l.not_deleted) 0
                  then none
                  else some (mark_deleted l i item))
                ≡ some (mark_deleted l i item) =
              rw (d, n) refl in
            (
              ap num (sym (some_inj (sym deleted ∙ e))) ∙ length-set l.items i _,
              lt_of_get_elem? l.items i item h,
              subst (λ l'. deleted_at l'.items i ≡ true) (some_inj (sym deleted ∙ e))
                  (ap is_deleted
                    (get_elem?-set_self l.items i _ (lt_of_get_elem? l.items i item h))),
            )
      ]
    ]

module _ (strcoll : Str → Str → Ordering) where
  pub find-IsIn :
      (s : Searched) (f : Str) (x : ℤ) → plist_find_fname strcoll s f ≡ some x → IsIn s.list x
  unfolding plist_find_fname
  find-IsIn s f x e = go (rb_get_data (rb_search (order_of strcoll s.list.items) s.search_tree f)) e
    where
      go :
          (o : Option ℕ)
          → elim o [
            | none ↦ some minus_one
            | some i ↦
                if ltb i (num s.list)
                then some (if deleted_at s.list.items i then minus_one else pos i)
                else none
          ]
            ≡ some x
          → IsIn s.list x
      go none e = inl (sym (some_inj e))
      go (some i) e = elim (Bool-cases (ltb i (num s.list))) [
        | inl h ↦ elim (Bool-cases (deleted_at s.list.items i)) [
          | inl d ↦ inl (ground arith)
          | inr d ↦ inr (i, ground arith, ground arith, d)
        ]
        | inr h ↦ absurd (ground arith)
      ]
