-- ===== src/Lists/Tokens.antt =====
-- `lists_strs_split` of lists.c: its loop, and the tokens of a string.
use mocp.Prelude.{
  ℕ, zero, suc, ◌+◌, ◌≤◌, ◌<◌, ◌≡◌, refl, ap, ◌∙◌, sym, subst, inl, inr, true, false, Bool-cases,
  List, [], ◌∷◌, ◌++◌, if◌then◌else◌, length, append_assoc, append-nil, arith,
}
use mocp.Bytes.{Str}
use mocp.Lists.{
  Strs, is_delim, skip_delims, cut_token, split_loop, lists_strs_split, lists_strs_append,
  lists_strs_push,
}

-- the bytes that are no delimiters
unfoldable pub kept : Str → Str → Str
kept delim [] = []
kept delim (c ∷ s) = let rest = kept delim s in if is_delim delim c then rest else c ∷ rest

unfoldable pub flat : List Str → Str
flat [] = []
flat (t ∷ ts) = t ++ flat ts

-- A token is not empty and holds no delimiter.
abbrev pub NoDelim : Str → Str → Type 0
NoDelim delim [] = Unit {0}
NoDelim delim (c ∷ s) = (is_delim delim c ≡ false) × NoDelim delim s

pub record IsToken (delim t : Str) : Type 0 where
  pub some_byte : 0 < length t
  pub no_delim : NoDelim delim t

abbrev pub AllTokens : Str → List Str → Type 0
AllTokens delim [] = Unit {0}
AllTokens delim (t ∷ ts) = IsToken delim t × AllTokens delim ts

-- the list with the tokens `ts` behind its entries, and what they are
record Splits (delim s : Str) (old : List Str) (n : ℕ) (new : List Str) (ts : List Str)
    : Type 0 where
  pub appended : new ≡ old ++ ts
  pub number : n ≡ length ts
  pub tokens : AllTokens delim ts
  pub bytes : flat ts ≡ kept delim s

kept_of_delim :
    (delim s : Str) (c : ℕ) → is_delim delim c ≡ true → kept delim (c ∷ s) ≡ kept delim s
unfolding kept
kept_of_delim delim s c d = rw d refl

kept_of_other :
    (delim s : Str) (c : ℕ) → is_delim delim c ≡ false → kept delim (c ∷ s) ≡ c ∷ kept delim s
unfolding kept
kept_of_other delim s c k = rw k refl

kept-skip_delims : (delim s : Str) → kept delim (skip_delims delim s) ≡ kept delim s
unfolding kept skip_delims
kept-skip_delims delim [] = refl
kept-skip_delims delim (c ∷ s) = elim (Bool-cases (is_delim delim c)) [
  | inl d ↦ rw d (kept-skip_delims delim s)
  | inr k ↦ ground arith
]

length-skip_delims : (delim s : Str) → length (skip_delims delim s) ≤ length s
unfolding skip_delims
length-skip_delims delim [] = omega arith
length-skip_delims delim (c ∷ s) = elim (Bool-cases (is_delim delim c)) [
  | inl d ↦ rw d (omega (arith, length-skip_delims delim s))
  | inr k ↦ rw k (omega arith)
]

skip_delims-head :
    (delim s : Str) (c : ℕ) (r : Str) → skip_delims delim s ≡ c ∷ r → is_delim delim c ≡ false
unfolding skip_delims
skip_delims-head delim [] c r e = cc
skip_delims-head delim (d ∷ s) c r e = elim (Bool-cases (is_delim delim d)) [
  | inl y ↦ skip_delims-head delim s c r (ground arith)
  | inr n ↦ ground arith
]

-- what `cut_token` makes of a string
record Cuts (delim s token rest : Str) : Type 0 where
  pub no_delim : NoDelim delim token
  pub bytes : token ++ kept delim rest ≡ kept delim s
  pub shorter : length token + length rest ≤ length s

cut_token-Cuts : (delim s : Str) → let (token, rest) = cut_token delim s in Cuts delim s token rest
unfolding cut_token
cut_token-Cuts delim [] = record { no_delim = tt; bytes = refl; shorter = omega arith }
cut_token-Cuts delim (c ∷ s) =
    let r = cut_token-Cuts delim s in
    elim (Bool-cases (is_delim delim c)) [
      | inl d ↦
          rw d
            record { no_delim = tt; bytes = sym (kept_of_delim delim s c d); shorter = omega arith }
      | inr k ↦ rw k record {
        no_delim = (k, r.no_delim);
        bytes = ap (λ z. c ∷ z) r.bytes ∙ sym (kept_of_other delim s c k);
        shorter = omega (arith, r.shorter);
      }
    ]

-- The first byte that is no delimiter begins the token.
cut_token_some :
    (delim s : Str) (c : ℕ) → is_delim delim c ≡ false → 0 < length (cut_token delim (c ∷ s)).0
unfolding cut_token
cut_token_some delim s c k = rw k (omega arith)

-- what the loop gives, started with `result` and `list`
abbrev Loop : Str → Str → ℕ → Strs → ℕ × Strs → Type 0
Loop delim s result list out =
    (n : ℕ) × (ts : List Str) × (out.0 ≡ result + n) × Splits delim s list.strs n out.1.strs ts

split_loop_stop :
    (fuel : ℕ) (delim s : Str) (result : ℕ) (list : Strs)
    → skip_delims delim s ≡ []
    → split_loop (suc fuel) delim s result list ≡ (result, list)
unfolding split_loop
split_loop_stop fuel delim s result list e = rw (e, split_loop) refl

split_loop_round :
    (fuel : ℕ) (delim s : Str) (result : ℕ) (list : Strs) (c : ℕ) (r : Str)
    → skip_delims delim s ≡ c ∷ r
    → split_loop (suc fuel) delim s result list
      ≡ split_loop fuel delim
          (cut_token delim (c ∷ r)).1
          (result + 1)
          (lists_strs_append list (cut_token delim (c ∷ r)).0)
unfolding split_loop
split_loop_round fuel delim s result list c r e = rw (e, split_loop) refl

-- a token in front of those of the rest
round-Loop :
    (delim s : Str) (result : ℕ) (list : Strs) (c : ℕ) (r : Str) (out : ℕ × Strs)
    → skip_delims delim s ≡ c ∷ r
    → Loop delim
        (cut_token delim (c ∷ r)).1
        (result + 1)
        (lists_strs_append list (cut_token delim (c ∷ r)).0)
        out
    → Loop delim s result list out
unfolding lists_strs_append lists_strs_push flat
round-Loop delim s result list c r out e (n, ts, number, l) =
    let k = cut_token-Cuts delim (c ∷ r) in
    let t = (cut_token delim (c ∷ r)).0 in
    (
      suc n,
      t ∷ ts,
      omega (arith, number),
      record {
        appended = l.appended ∙ append_assoc list.strs (t ∷ []) ts;
        number = omega (arith, l.number);
        tokens = (
          record {
            some_byte = cut_token_some delim r c (skip_delims-head delim s c r e);
            no_delim = k.no_delim;
          },
          l.tokens,
        );
        bytes =
            ap (λ z. t ++ z) l.bytes ∙ k.bytes ∙ ap (kept delim) (sym e) ∙ kept-skip_delims delim s;
      },
    )

split_loop-Loop :
    (fuel : ℕ) (delim s : Str) (result : ℕ) (list : Strs)
    → length s < fuel
    → Loop delim s result list (split_loop fuel delim s result list)
unfolding flat kept
split_loop-Loop zero delim s result list h = absurd (omega arith)
split_loop-Loop (suc fuel) delim s result list h =
    let again : (rest : Str) (list : Strs)
        → length rest < fuel
        → Loop delim rest (result + 1) list (split_loop fuel delim rest (result + 1) list) =
      λ rest list. split_loop-Loop fuel delim rest (result + 1) list in
    go (skip_delims delim s) refl again
  where
    go :
        (t : Str)
        → skip_delims delim s ≡ t
        → ((rest : Str) (list : Strs)
            → length rest < fuel
            → Loop delim rest (result + 1) list (split_loop fuel delim rest (result + 1) list))
        → Loop delim s result list (split_loop (suc fuel) delim s result list)
    go [] e again =
        subst (Loop delim s result list) (sym (split_loop_stop fuel delim s result list e)) (
          0,
          [],
          omega arith,
          record {
            appended = sym (append-nil list.strs);
            number = refl;
            tokens = tt;
            bytes = sym (sym (kept-skip_delims delim s) ∙ ap (kept delim) e);
          },
        )
    go (c ∷ r) e again =
        let k = cut_token-Cuts delim (c ∷ r) in
        let rest = (cut_token delim (c ∷ r)).1 in
        let longer = lists_strs_append list (cut_token delim (c ∷ r)).0 in
        let some_byte = cut_token_some delim r c (skip_delims-head delim s c r e) in
        let size : length (skip_delims delim s) ≡ suc (length r) = ap length e in
        let enough : length rest < fuel =
          omega (arith, k.shorter, some_byte, size, length-skip_delims delim s) in
        subst (Loop delim s result list) (sym (split_loop_round fuel delim s result list c r e)) (
          round-Loop delim s result list c r (split_loop fuel delim rest (result + 1) longer) e
            (again rest longer enough))

-- `lists_strs_split` appends tokens to the list and returns their number: none is empty or holds a
-- delimiter, and one after the other they are the string without its delimiters.
pub split-tokens :
    (list : Strs) (s delim : Str)
    → (ts : List Str) × ((lists_strs_split list s delim).0 ≡ length ts)
      × ((lists_strs_split list s delim).1.strs ≡ list.strs ++ ts)
      × AllTokens delim ts
      × (flat ts ≡ kept delim s)
unfolding lists_strs_split
split-tokens list s delim =
    let (n, ts, number, l) = split_loop-Loop (suc (length s)) delim s 0 list (omega arith) in
    (ts, omega (arith, number, l.number), l.appended, l.tokens, l.bytes)
