-- ===== src/Options/Probe.antt =====
-- The loops of find_option and find_free of options.c over a part of the table.
use mocp.Prelude.{
  ℕ, zero, suc, ◌+◌, ◌*◌, ◌%◌, ◌^◌, ◌<◌, ◌≡◌, ap, ◌∙◌, refl, Bool, true, false, Option, none, some,
  List, [], ◌∷◌, length, get_elem?, drop, take, subst, arith,
}
use mocp.Bytes.{Str}
use mocp.Files.{to_lower, same_nocase}
use mocp.Options.{OptionType, Entry, hash_from, hit, over, answers, find_loop, free_loop}

-- Equal names but for case have equal hashes.
pub same_nocase-hash : (a b : Str) (h : ℕ) → same_nocase a b ≡ true → hash_from h a ≡ hash_from h b
unfolding same_nocase hash_from
same_nocase-hash [] [] h e = refl
same_nocase-hash [] (d ∷ b) h e = cc
same_nocase-hash (c ∷ a) [] h e = cc
same_nocase-hash (c ∷ a) (d ∷ b) h e =
    let l : to_lower c ≡ to_lower d = ground arith in
    let r : same_nocase a b ≡ true = ground arith in
    ap (λ z. hash_from ((h * 2 ^ 5 + h + z) % 2 ^ 32) a) l
    ∙ same_nocase-hash a b ((h * 2 ^ 5 + h + to_lower d) % 2 ^ 32) r

-- Every slot before number j of these is in use, and holds no entry that answers.
abbrev pub Passed : (Entry → Bool) → List (Option Entry) → ℕ → Type 0
Passed p slots zero = Unit {0}
Passed p [] (suc j) = Unit {0}
Passed p (none ∷ slots) (suc j) = true ≡ false
Passed p (some e ∷ slots) (suc j) = (p e ≡ false) × Passed p slots j

module _ (name : Str) (h : ℕ) (type : OptionType) where
  pub find_loop-hit :
      (slots : List (Option Entry)) (i j : ℕ) (e : Entry)
      → get_elem? slots j ≡ some (some e)
      → answers name h type e ≡ true
      → Passed (answers name h type) slots j
      → find_loop name h type slots i ≡ hit (i + j)
  unfolding find_loop
  find_loop-hit [] i j e g a q = cc
  find_loop-hit (none ∷ slots) i zero e g a q = cc
  find_loop-hit (some d ∷ slots) i zero e g a q =
      let same : d ≡ e = cc in
      let right : answers name h type d ≡ true = rw same a in rw right (ap hit (omega arith))
  find_loop-hit (none ∷ slots) i (suc j) e g a q = cc
  find_loop-hit (some d ∷ slots) i (suc j) e g a q =
      ground (arith, q.0, find_loop-hit slots (suc i) j e g a q.1)

  pub find_loop-over :
      (slots : List (Option Entry)) (i : ℕ)
      → Passed (answers name h type) slots (length slots)
      → find_loop name h type slots i ≡ over
  unfolding find_loop
  find_loop-over [] i q = refl
  find_loop-over (none ∷ slots) i q = cc
  find_loop-over (some d ∷ slots) i q = ground (arith, q.0, find_loop-over slots (suc i) q.1)

pub Passed-each :
    (p : Entry → Bool) (slots : List (Option Entry)) (j : ℕ)
    → ((k : ℕ) → k < j → (e : Entry) × (get_elem? slots k ≡ some (some e)) × (p e ≡ false))
    → Passed p slots j
Passed-each p slots zero f = tt
Passed-each p [] (suc j) f = tt
Passed-each p (none ∷ slots) (suc j) f = let (e, g, q) = f 0 (omega arith) in cc
Passed-each p (some d ∷ slots) (suc j) f =
    let (e, g, q) = f 0 (omega arith) in
    (cc, Passed-each p slots j (λ k h. f (suc k) (omega (arith, h))))

pub get_elem?-drop :
    {A : Type 0} (xs : List A) (p k : ℕ) → get_elem? (drop p xs) k ≡ get_elem? xs (p + k)
get_elem?-drop xs zero k = ap (get_elem? xs) (omega arith)
get_elem?-drop [] (suc p) k = refl
get_elem?-drop (x ∷ xs) (suc p) k =
    let e : suc (p + k) ≡ suc p + k = omega arith in
    get_elem?-drop xs p k ∙ ap (get_elem? (x ∷ xs)) e

pub get_elem?-take :
    {A : Type 0} (xs : List A) (p k : ℕ) → k < p → get_elem? (take p xs) k ≡ get_elem? xs k
get_elem?-take xs zero k h = elim h [ ]
get_elem?-take [] (suc p) k h = refl
get_elem?-take (x ∷ xs) (suc p) zero h = refl
get_elem?-take (x ∷ xs) (suc p) (suc k) h = get_elem?-take xs p k (omega (arith, h))

-- Where free_loop stops: at the first free slot, or at none.
pub data Frees (slots : List (Option Entry)) (i : ℕ) : Option ℕ → Type 0 where
  all_used :
      ((k : ℕ) → k < length slots → (e : Entry) × (get_elem? slots k ≡ some (some e)))
      → Frees slots i none
  first_free :
      (j : ℕ)
      → get_elem? slots j ≡ some none
      → ((k : ℕ) → k < j → (e : Entry) × (get_elem? slots k ≡ some (some e)))
      → Frees slots i (some (i + j))

-- the slot is in use
abbrev pub UsedAt : List (Option Entry) → ℕ → Type 0
UsedAt slots k = (e : Entry) × (get_elem? slots k ≡ some (some e))

UsedAt-shift :
    (d : Entry) (slots : List (Option Entry)) (n : ℕ)
    → ((k : ℕ) → k < n → UsedAt slots k)
    → (k : ℕ) → k < suc n
    → UsedAt (some d ∷ slots) k
UsedAt-shift d slots n f zero h = (d, refl)
UsedAt-shift d slots n f (suc k) h = f k (omega (arith, h))

pub free_loop-Frees : (slots : List (Option Entry)) (i : ℕ) → Frees slots i (free_loop slots i)
unfolding free_loop
free_loop-Frees [] i = all_used (λ k h. elim h [ ])
free_loop-Frees (none ∷ slots) i =
    subst (λ z. Frees (none ∷ slots) i (some z)) (omega arith)
      (first_free 0 refl (λ k h. elim h [ ]))
free_loop-Frees (some d ∷ slots) i = more (free_loop slots (suc i)) (free_loop-Frees slots (suc i))
  where
    more : (o : Option ℕ) → Frees slots (suc i) o → Frees (some d ∷ slots) i o
    more _ (all_used f) = all_used (UsedAt-shift d slots (length slots) f)
    more _ (first_free j g f) =
        subst (λ z. Frees (some d ∷ slots) i (some z)) (omega arith)
          (first_free (suc j) g (UsedAt-shift d slots j f))
