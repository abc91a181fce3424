-- ===== src/Options/Table.antt =====
-- find_option of options.c on the whole table.
use mocp.Prelude.{
  ℕ, suc, ◌+◌, ◌-◌, ◌%◌, ◌<◌, ◌≤◌, ◌≡◌, ◌⊎◌, inl, inr, refl, sym, ap, subst, ◌∙◌, Bool-cases, true,
  false, ◌&&◌, Option, none, some, List, [], ◌∷◌, length, length-drop, length-take, get_elem?,
  lt_of_get_elem?, drop, take, ◌==◌, arith,
}
use mocp.Bytes.{Str}
use mocp.Files.{same_nocase}
use mocp.Options.{
  OptionType, overlaps, Entry, options_max, hash, Scan, miss, over, answers, find_loop, again,
  find_option,
}
use mocp.Options.Probe.{
  same_nocase-hash, Passed-each, find_loop-hit, find_loop-over, get_elem?-drop, get_elem?-take,
  UsedAt,
}

-- From the slot s on, round the end of the table, j comes before i.
abbrev pub Before : ℕ → ℕ → ℕ → Type 0
Before s j i = (s ≤ j × (j < i ⊎ i < s)) ⊎ (j < i × i < s)

-- The hashes are those of the names, and there is no free slot between where the search for an option starts and where
-- the option is.
pub record IsTable (slots : List (Option Entry)) : Type 0 where
  pub size : length slots ≡ options_max
  pub hashed : (i : ℕ) (e : Entry) → get_elem? slots i ≡ some (some e) → e.hash ≡ hash e.name
  pub probed :
      (i j : ℕ) (e : Entry)
      → get_elem? slots i ≡ some (some e)
      → j < options_max
      → Before (e.hash % options_max) j i
      → UsedAt slots j

-- the option that is asked for by this name and type
abbrev pub Asked : Str → OptionType → Entry → Type 0
Asked name type e = (overlaps type e.kind ≡ true) × (same_nocase name e.name ≡ true)

pub le_or_lt : (p i : ℕ) → p ≤ i ⊎ i < p
le_or_lt p i = omega arith

module _ (slots : List (Option Entry)) (name : Str) (type : OptionType) (i : ℕ) (e : Entry) where
  -- In a table with no free slot between the start of the search for an option and the option,
  -- find_option returns the option of the name, but for case, and of the type, if there is one only.
  pub find_option-finds :
      IsTable slots
      → get_elem? slots i ≡ some (some e)
      → overlaps type e.kind ≡ true
      → same_nocase name e.name ≡ true
      → ((k : ℕ) (d : Entry)
          → get_elem? slots k ≡ some (some d)
          → overlaps type d.kind ≡ true
          → same_nocase name d.name ≡ true
          → k ≡ i)
      → find_option slots name type ≡ some i
  unfolding find_option
  find_option-finds t g o n u = elim (le_or_lt p i) [ inl h ↦ from_start h | inr h ↦ round h ]
    where
      p : ℕ
      p = hash name % options_max

      inside : i < options_max
      inside = subst (λ z. i < z) t.size (lt_of_get_elem? slots i (some e) g)

      start : e.hash % options_max ≡ p
      start = ap (λ z. z % options_max) (t.hashed i e g ∙ sym (same_nocase-hash name e.name 5381 n))

      hash_eq : (hash name == e.hash) ≡ true
      hash_eq =
          let h : hash name ≡ e.hash = same_nocase-hash name e.name 5381 n ∙ sym (t.hashed i e g) in
          ground (arith, h)

      asked : answers name (hash name) type e ≡ true
      asked = rw (hash_eq, o, n) refl

      other :
          (k : ℕ)
          → k < options_max
          → Before p k i
          → (k ≡ i → ⊥)
          → (d : Entry) × (get_elem? slots k ≡ some (some d))
            × (answers name (hash name) type d ≡ false)
      other k c b ne =
          let (d, gd) = t.probed i k e g c (subst (λ z. Before z k i) (sym start) b) in
          elim (Bool-cases (answers name (hash name) type d)) [
            | inl a ↦ absurd (ne (u k d gd (ground (arith, a)) (ground (arith, a))))
            | inr a ↦ (d, gd, a)
          ]

      from_start : p ≤ i → find_option slots name type ≡ some i
      from_start h =
          let first =
            find_loop-hit name (hash name) type (drop p slots) p (i - p) e
              (get_elem?-drop slots p (i - p) ∙ ap (get_elem? slots) (omega (arith, h)) ∙ g) asked
              (Passed-each (answers name (hash name) type) (drop p slots) (i - p) (λ k c.
                let (d, gd, a) =
                  other (p + k) (omega (arith, c, h, inside))
                    (inl (omega arith, inl (omega (arith, c, h)))) (λ q. omega (arith, q, c, h)) in
                (d, get_elem?-drop slots p k ∙ gd, a))) in
          ap (λ z. again z (find_loop name (hash name) type (take p slots) 0)) first
          ∙ ap some (omega (arith, h))

      round : i < p → find_option slots name type ≡ some i
      round h =
          let first = find_loop-over name (hash name) type (drop p slots) p (
            Passed-each (answers name (hash name) type) (drop p slots) (length (drop p slots))
              (λ k c.
                let c' : k < options_max - p =
                  subst (λ z. k < z) (length-drop p slots ∙ ap (λ z. z - p) t.size) c in
                let (d, gd, a) =
                  other (p + k) (omega (arith, c')) (inl (omega arith, inr h))
                    (λ q. omega (arith, q, h)) in
                (d, get_elem?-drop slots p k ∙ gd, a))) in
          let second =
            find_loop-hit name (hash name) type (take p slots) 0 i e
              (get_elem?-take slots p i h ∙ g) asked
              (Passed-each (answers name (hash name) type) (take p slots) i (λ k c.
                let (d, gd, a) =
                  other k (omega (arith, c, inside)) (inr (c, h)) (λ q. omega (arith, q, c)) in
                (d, get_elem?-take slots p k (omega (arith, c, h)) ∙ gd, a))) in
          ap (λ z. again z (find_loop name (hash name) type (take p slots) 0)) first
          ∙ ap (again over) second
          ∙ ap some (omega arith)

no_hit :
    (slots : List (Option Entry)) (name : Str) (type : OptionType) (i : ℕ)
    → ((k : ℕ) (d : Entry)
        → get_elem? slots k ≡ some (some d)
        → answers name (hash name) type d ≡ false)
    → (find_loop name (hash name) type slots i ≡ miss)
      ⊎ (find_loop name (hash name) type slots i ≡ over)
unfolding find_loop
no_hit [] name type i f = inr refl
no_hit (none ∷ slots) name type i f = inl refl
no_hit (some d ∷ slots) name type i f = elim (no_hit slots name type (suc i) (λ k. f (suc k))) [
  | inl e ↦ inl (rw (find_loop, f 0 d refl) e)
  | inr e ↦ inr (rw (find_loop, f 0 d refl) e)
]

-- Where no option has the name, but for case, and the type, find_option returns -1, whatever the
-- table.
find_option-absent :
    (slots : List (Option Entry)) (name : Str) (type : OptionType)
    → ((k : ℕ) (d : Entry)
        → get_elem? slots k ≡ some (some d)
        → (overlaps type d.kind && same_nocase name d.name) ≡ false)
    → find_option slots name type ≡ none
unfolding find_option
find_option-absent slots name type f =
    go
      (no_hit (drop p slots) name type p
        (λ k d g. no (p + k) d (sym (get_elem?-drop slots p k) ∙ g)))
      (no_hit (take p slots) name type 0 (λ k d g.
        let low : k < p =
          omega (arith, lt_of_get_elem? (take p slots) k (some d) g, length-take p slots) in
        no k d (sym (get_elem?-take slots p k low) ∙ g)))
  where
    p : ℕ
    p = hash name % options_max

    no :
        (k : ℕ) (d : Entry)
        → get_elem? slots k ≡ some (some d)
        → answers name (hash name) type d ≡ false
    no k d g = let h = f k d g in ground (arith, h)

    first : Scan
    first = find_loop name (hash name) type (drop p slots) p

    second : Scan
    second = find_loop name (hash name) type (take p slots) 0

    go :
        (first ≡ miss) ⊎ (first ≡ over)
        → (second ≡ miss) ⊎ (second ≡ over)
        → find_option slots name type ≡ none
    go (inl e) o = ap (λ z. again z second) e
    go (inr e) (inl k) = ap (λ z. again z second) e ∙ ap (again over) k
    go (inr e) (inr k) = ap (λ z. again z second) e ∙ ap (again over) k
