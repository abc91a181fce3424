-- ===== src/Options/Added.antt =====
-- find_free and init_option of options.c.
use mocp.Prelude.{
  ℕ, zero, suc, ◌+◌, ◌-◌, ◌%◌, ◌<◌, ◌≤◌, ◌≡◌, ◌≢◌, ◌⊎◌, inl, inr, refl, sym, ap, subst, ◌∙◌, true,
  false, Option, none, some, List, [], ◌∷◌, ltb, length, length-drop, length-take, length-set,
  get_elem?, get_elem?-set_self, get_elem?-set_ne, lt_of_get_elem?, drop, take, set, arith,
}
use mocp.Bytes.{Str}
use mocp.Files.{same_nocase}
use mocp.Options.{
  OptionType, option_int, option_bool, option_str, option_symb, option_list, option_path,
  option_any, overlaps, Entry, Options, options_max, option_name_max, hash, find_option, or_else,
  find_free, is_valid_symbol, init_option,
}
use mocp.Options.Probe.{
  get_elem?-drop, get_elem?-take, Frees, all_used, first_free, free_loop-Frees, UsedAt,
}
use mocp.Options.Table.{Before, IsTable, le_or_lt, find_option-finds}

-- the number of slots in use
unfoldable pub used : List (Option Entry) → ℕ
used [] = 0
used (none ∷ slots) = used slots
used (some e ∷ slots) = suc (used slots)

used-set :
    (slots : List (Option Entry)) (p : ℕ) (e : Entry)
    → get_elem? slots p ≡ some none
    → used (set slots p (some e)) ≡ suc (used slots)
unfolding used
used-set [] p e g = cc
used-set (none ∷ slots) zero e g = refl
used-set (some d ∷ slots) zero e g = cc
used-set (none ∷ slots) (suc p) e g = used-set slots p e g
used-set (some d ∷ slots) (suc p) e g = ap suc (used-set slots p e g)

used-all :
    (slots : List (Option Entry))
    → ((k : ℕ) → k < length slots → UsedAt slots k)
    → used slots ≡ length slots
unfolding used
used-all [] f = refl
used-all (none ∷ slots) f = let (e, g) = f 0 (omega arith) in cc
used-all (some d ∷ slots) f = ap suc (used-all slots (λ k h. f (suc k) (omega (arith, h))))

pub record IsOptions (o : Options) : Type 0 where
  pub table : IsTable o.slots
  pub counted : used o.slots ≡ o.options_num

-- the first free slot from s on, round the end of the table
unfoldable pub First : List (Option Entry) → ℕ → ℕ → Type 0
First slots s p =
    (get_elem? slots p ≡ some none) × ((j : ℕ) → j < options_max → Before s j p → UsedAt slots j)

module _ (slots : List (Option Entry)) (s : ℕ) (size : length slots ≡ options_max)
    (low : s < options_max) where
  UsedAt-drop :
      (n : ℕ)
      → ((k : ℕ) → k < n → UsedAt (drop s slots) k)
      → (j : ℕ) → s ≤ j
      → j < s + n
      → UsedAt slots j
  UsedAt-drop n f j a b =
      let (e, g) = f (j - s) (omega (arith, a, b)) in
      (e, ap (get_elem? slots) (omega (arith, a)) ∙ sym (get_elem?-drop slots s (j - s)) ∙ g)

  UsedAt-take :
      (n : ℕ)
      → n ≤ s
      → ((k : ℕ) → k < n → UsedAt (take s slots) k)
      → (j : ℕ) → j < n
      → UsedAt slots j
  UsedAt-take n l f j b =
      let (e, g) = f j b in (e, sym (get_elem?-take slots s j (omega (arith, l, b))) ∙ g)

  free-First :
      (x y : Option ℕ)
      → Frees (drop s slots) s x
      → Frees (take s slots) 0 y
      → used slots < options_max
      → (p : ℕ) × (or_else x y ≡ some p) × First slots s p
  unfolding First
  free-First _ _ (first_free j g f) b u = (
    s + j,
    refl,
    (
      sym (get_elem?-drop slots s j) ∙ g,
      λ k c q. UsedAt-drop j f k (omega (arith, q)) (omega (arith, q)),
    ),
  )
  free-First _ _ (all_used f) (first_free j g h) u =
      let l : j < s =
        omega (arith, lt_of_get_elem? (take s slots) j none g, length-take s slots, low) in
      (
        0 + j,
        refl,
        (
          ap (get_elem? slots) (omega arith) ∙ sym (get_elem?-take slots s j l) ∙ g,
          λ k c q. elim q [
            | inl r ↦
                UsedAt-drop (length (drop s slots)) f k r.0
                  (omega (arith, length-drop s slots, size, low, c))
            | inr r ↦ UsedAt-take j (omega (arith, l)) h k (omega (arith, r.0))
          ],
        ),
      )
  free-First _ _ (all_used f) (all_used h) u =
      let full = used-all slots (λ k c. elim (le_or_lt s k) [
        | inl r ↦
            UsedAt-drop (length (drop s slots)) f k r
              (omega (arith, length-drop s slots, size, low, c))
        | inr r ↦
            UsedAt-take (length (take s slots)) (omega (arith, length-take s slots)) h k
              (omega (arith, length-take s slots, size, low, r))
      ]) in
      absurd (omega (arith, full, size, u))

pub find_free-First :
    (o : Options) (h : ℕ)
    → IsOptions o
    → o.options_num < options_max
    → (p : ℕ) × (find_free o h ≡ some p) × First o.slots (h % options_max) p
unfolding find_free
find_free-First o h t l =
    let (p, e, f) =
      free-First o.slots (h % options_max) t.table.size (omega arith) _ _
        (free_loop-Frees (drop (h % options_max) o.slots) (h % options_max))
        (free_loop-Frees (take (h % options_max) o.slots) 0) (omega (arith, t.counted, l)) in
    let room : ltb o.options_num options_max ≡ true = ground (arith, l) in (p, rw (room) e, f)

-- the option that init_option puts in its place
abbrev pub new_entry : Str → OptionType → Entry
new_entry name type = record {
  name = name;
  kind = type;
  ignore_in_config = false;
  set_in_config = false;
  hash = hash name;
}

same_or_not : (p i : ℕ) → (p ≡ i) ⊎ (p ≢ i)
same_or_not p i = omega arith

module _ (slots : List (Option Entry)) (name : Str) (type : OptionType) (p : ℕ) where
  stays :
      get_elem? slots p ≡ some none
      → (k : ℕ) (d : Entry) → get_elem? slots k ≡ some (some d)
      → get_elem? (set slots p (some (new_entry name type))) k ≡ some (some d)
  stays f k d g = get_elem?-set_ne slots _ (λ q. cc) ∙ g

  stays-UsedAt :
      get_elem? slots p ≡ some none
      → (k : ℕ) → UsedAt slots k
      → UsedAt (set slots p (some (new_entry name type))) k
  stays-UsedAt f k (d, g) = (d, stays f k d g)

  pub at_set :
      get_elem? slots p ≡ some none
      → (i : ℕ) (e : Entry) → get_elem? (set slots p (some (new_entry name type))) i ≡ some (some e)
      → (p ≡ i × e ≡ new_entry name type) ⊎ (get_elem? slots i ≡ some (some e))
  at_set f i e g = elim (same_or_not p i) [
    | inl q ↦
        let there =
          get_elem?-set_self slots p (some (new_entry name type))
            (lt_of_get_elem? slots p none f) in
        let here : get_elem? (set slots p (some (new_entry name type))) p ≡ some (some e) =
          ap (get_elem? (set slots p (some (new_entry name type)))) q ∙ g in
        inl (q, cc)
    | inr n ↦ inr (sym (get_elem?-set_ne slots (some (new_entry name type)) n) ∙ g)
  ]

  pub set-IsTable :
      IsTable slots
      → First slots (hash name % options_max) p
      → IsTable (set slots p (some (new_entry name type)))
  unfolding First
  set-IsTable t f = record {
    size = length-set slots p _ ∙ t.size;
    hashed = λ i e g. elim (at_set f.0 i e g) [
      | inl q ↦ ap (λ (d : Entry). d.hash) q.1 ∙ sym (ap (λ (d : Entry). hash d.name) q.1)
      | inr q ↦ t.hashed i e q
    ];
    probed = λ i j e g c b. elim (at_set f.0 i e g) [
      | inl q ↦ stays-UsedAt f.0 j (
          f.1 j c (
            subst (λ z. Before (hash name % options_max) j z) (sym q.0)
              (subst (λ z. Before (z % options_max) j i) (ap (λ (d : Entry). d.hash) q.1) b)))
      | inr q ↦ stays-UsedAt f.0 j (t.probed i j e q c b)
    ];
  }

overlaps_self : (type : OptionType) → overlaps type type ≡ true
overlaps_self option_int = refl
overlaps_self option_bool = refl
overlaps_self option_str = refl
overlaps_self option_symb = refl
overlaps_self option_list = refl
overlaps_self option_path = refl
overlaps_self option_any = refl

same_nocase_self : (s : Str) → same_nocase s s ≡ true
unfolding same_nocase
same_nocase_self [] = refl
same_nocase_self (c ∷ s) = ground (arith, same_nocase_self s)

-- In a table whose options can be found, with a free slot and no option of this name, init_option
-- with a valid name of less than 32 bytes finds a free slot and puts the option there; find_option
-- then finds it, every option stays where it was, and the table is one whose options can be found.
pub init_option-IsOptions :
    (o : Options) (name : Str) (type : OptionType)
    → IsOptions o
    → o.options_num < options_max
    → length name < option_name_max
    → is_valid_symbol name ≡ true
    → ((k : ℕ) (d : Entry) → get_elem? o.slots k ≡ some (some d) → same_nocase name d.name ≡ false)
    → (r : Options) × (p : ℕ) × (init_option o name type ≡ some (r, p))
      × IsOptions r
      × (find_option r.slots name type ≡ some p)
      × ((k : ℕ) (d : Entry)
          → get_elem? o.slots k ≡ some (some d)
          → get_elem? r.slots k ≡ some (some d))
unfolding init_option First
init_option-IsOptions o name type t l m v new =
    let (p, e, f) = find_free-First o (hash name) t l in
    let slots = set o.slots p (some (new_entry name type)) in
    let short : ltb (length name) option_name_max ≡ true = ground (arith, m) in
    let table = set-IsTable o.slots name type p t.table f in
    (
      record { slots = slots; options_num = o.options_num + 1 },
      p,
      rw (init_option, e, short, v) refl,
      record {
        table = table;
        counted = used-set o.slots p (new_entry name type) f.0 ∙ ap suc t.counted ∙ omega arith;
      },
      find_option-finds slots name type p (new_entry name type) table
          (get_elem?-set_self o.slots p (some (new_entry name type))
            (lt_of_get_elem? o.slots p none f.0))
          (overlaps_self type) (same_nocase_self name)
          (λ k d g a b. elim (at_set o.slots name type p f.0 k d g) [
            | inl q ↦ sym q.0
            | inr q ↦ let no = new k d q in cc
          ]),
      stays o.slots name type p f.0,
    )
