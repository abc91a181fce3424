-- ===== src/TagsCache/Record/Cut.antt =====
-- tags_cache.c: what `cache_record_deserialize` makes of a record that is whole, or cut off behind its
-- first bytes.
use mocp.Prelude.{
  ℕ, zero, suc, ◌+◌, ◌-◌, ◌^◌, ◌≤◌, ◌<◌, ◌≡◌, refl, sym, ap, ap₂, ◌∙◌, subst, true, false, List, [],
  ◌∷◌, ◌++◌, length, take, ltb, leb, if◌then◌else◌, arith, inl, inr, Bool-cases, append_assoc,
  append-nil, length-append, length-take, take-append_self, drop-append_self,
}
use mocp.TagsCache.Record.{
  Cursor, Reading, ok, overruns, Extract, ◌>>=◌, pure, extract_num, extract_chars, extract_str,
  copy, then_do,
}
use mocp.Bytes.{c_string, le_bytes, of_le_bytes, length-le_bytes, of_le_bytes-le_bytes}

-- The fields `bytes` stand in front of `more`, of which only the first k bytes are there: the value is
-- `a` when they are all there, and the read goes behind the end when not. `d` bytes are counted, and
-- `m` are wanted.
abbrev pub at : List ℕ → ℕ → Cursor
at rest n = record { rest = rest; bytes_left = n }

pub Cut : {A : Type 0} → Extract A → List ℕ → A → ℕ → ℕ → Type 0
Cut p bytes a d m =
    (n k : ℕ) (more : List ℕ)
    → m ≤ n
    → p (at (take k (bytes ++ more)) n) ≡ (
        if leb (length bytes) k
        then ok (a, at (take (k - length bytes) more) (n - d))
        else overruns)

take-append_right :
    (k w : ℕ) (xs ys : List ℕ) → w ≡ length xs → w ≤ k → take k (xs ++ ys) ≡ xs ++ take (k - w) ys
take-append_right k w [] ys e h = ap (λ j. take j ys) {x = k} (omega arith)
take-append_right zero w (x ∷ xs) ys e h = absurd (omega arith)
take-append_right (suc k) zero (x ∷ xs) ys e h = absurd (omega arith)
take-append_right (suc k) (suc w) (x ∷ xs) ys e h =
    ap (λ l. x ∷ l)
      (take-append_right k w xs ys (omega arith) (omega arith)
        ∙ ap (λ j. xs ++ take j ys) (omega arith))

-- a memcpy of w bytes that are there, or not
copied :
    {A : Type 0} (k w : ℕ) (bytes more : List ℕ) (f : List ℕ → List ℕ → Reading A)
    → w ≡ length bytes
    → copy (take k (bytes ++ more)) w f
      ≡ (if leb (length bytes) k then f bytes (take (k - length bytes) more) else overruns)
copied k w bytes more f e = elim (Bool-cases (leb w k)) [
  | inl h ↦
      let all : leb (length bytes) k ≡ true = ground arith in
      let enough : ltb (length (bytes ++ take (k - w) more)) w ≡ false =
        ground (arith, length-append bytes (take (k - w) more)) in
      rw
        (
          take-append_right k w bytes more e (ground arith),
          enough,
          all,
          take-append_self w bytes (take (k - w) more) e,
          drop-append_self w bytes (take (k - w) more) e,
        )
        (ap (λ j. f bytes (take (k - j) more)) e)
  | inr h ↦
      let some_left : leb (length bytes) k ≡ false = ground arith in
      let short : ltb (length (take k (bytes ++ more))) w ≡ true =
        ground (arith, length-take k (bytes ++ more)) in
      rw (some_left, short) refl
]

pub extract_num-Cut :
    {A : Type 0} (w : ℕ) (value : List ℕ → A) (bytes : List ℕ)
    → w ≡ length bytes
    → Cut (extract_num w value) bytes (value bytes) w w
unfolding Cut extract_num
extract_num-Cut w value bytes e n k more h =
    let room : ltb n w ≡ false = ground arith in
    rw room (copied k w bytes more (λ b rest. ok (value b, at rest (n - w))) e)

extract_chars-eq :
    (bytes : List ℕ) (n k : ℕ) (more : List ℕ)
    → length bytes ≤ n
    → extract_chars (length bytes) (at (take k (bytes ++ more)) n) ≡ (
        if leb (length bytes) k
        then ok (c_string bytes, at (take (k - length bytes) more) n)
        else overruns)
unfolding extract_chars
extract_chars-eq bytes n k more h =
    let room : ltb n (length bytes) ≡ false = ground arith in
    rw room (copied k (length bytes) bytes more (λ b rest. ok (c_string b, at rest n)) refl)

-- two reads, one behind the other
nested :
    {A : Type 0} (k a b c : ℕ) (f : ℕ → Reading A)
    → c ≡ a + b
    → (if leb a k then (if leb b (k - a) then f (k - a - b) else overruns) else overruns)
      ≡ (if leb c k then f (k - c) else overruns)
nested k a b c f e = elim (Bool-cases (leb a k)) [
  | inl h ↦ elim (Bool-cases (leb b (k - a))) [
    | inl h' ↦ let all : leb c k ≡ true = ground arith in rw (h, h', all) (ap f (omega arith))
    | inr h' ↦ let short : leb c k ≡ false = ground arith in rw (h, h', short) refl
  ]
  | inr h ↦ let short : leb c k ≡ false = ground arith in rw (h, short) refl
]

pub bind-Cut :
    {A B : Type 0} (p : Extract A) (f : A → Extract B) (xs ys : List ℕ) (a : A) (b : B)
    (d d' m m' : ℕ) (n₁ : ℕ)
    → Cut p xs a d m
    → Cut (f a) ys b d' m'
    → m ≤ n₁
    → d + m' ≤ n₁
    → Cut (p >>= f) (xs ++ ys) b (d + d') n₁
unfolding Cut ◌>>=◌
bind-Cut {A} {B} p f xs ys a b d d' m m' n₁ P F h h' n k more l =
    ap (λ l. then_do (p (at (take k l) n)) f) (append_assoc xs ys more)
    ∙ ap (λ r. then_do r f) (P n k (ys ++ more) (omega arith))
    ∙ pushed
    ∙ ap (λ r. if leb (length xs) k then r else overruns)
        (F (n - d) (k - length xs) more (omega arith))
    ∙ nested k (length xs) (length ys) (length (xs ++ ys))
        (λ j. ok (b, at (take j more) (n - d - d'))) (length-append xs ys)
    ∙ ap
        (λ j.
          if leb (length (xs ++ ys)) k
          then ok (b, at (take (k - length (xs ++ ys)) more) j)
          else overruns)
        (omega arith)
  where
    pushed :
        then_do
          (if leb (length xs) k
            then ok (a, at (take (k - length xs) (ys ++ more)) (n - d))
            else overruns)
          f
        ≡ (if leb (length xs) k
            then f a (at (take (k - length xs) (ys ++ more)) (n - d))
            else overruns)
    pushed = elim (Bool-cases (leb (length xs) k)) [ inl e ↦ rw e refl | inr e ↦ rw e refl ]

pub pure-Cut : {A : Type 0} (a : A) → Cut (pure a) [] a 0 0
unfolding Cut pure
pure-Cut a n k more h =
    let all : leb 0 k ≡ true = ground arith in
    rw all (
      ap₂ (λ i j. ok (a, at (take i more) j)) {x = k} {y = k - 0} {u = n} {v = n - 0} (omega arith)
        (omega arith))

pub extract_str-Cut :
    (s : List ℕ) (m : ℕ)
    → length s < 2 ^ 64
    → 8 ≤ m
    → length s ≤ m
    → Cut extract_str (le_bytes 8 (length s) ++ s) (c_string s) 0 m
unfolding Cut extract_str
extract_str-Cut s m small h h' n k more l =
    let room : ltb n 8 ≡ false = ground arith in
    let front = le_bytes 8 (length s) in
    rw (room, append_assoc front s more)
      (copied k 8 front (s ++ more) (λ b rest. extract_chars (of_le_bytes b) (at rest n))
          (sym (length-le_bytes 8 (length s)))
        ∙ ap
            (λ j.
              if leb (length front) k
              then extract_chars j (at (take (k - length front) (s ++ more)) n)
              else overruns)
            (of_le_bytes-le_bytes 8 (length s) small)
        ∙ ap (λ r. if leb (length front) k then r else overruns)
            (extract_chars-eq s n (k - length front) more (omega arith))
        ∙ nested k (length front) (length s) (length (front ++ s))
            (λ j. ok (c_string s, at (take j more) n)) (length-append front s)
        ∙ ap
            (λ j.
              if leb (length (front ++ s)) k
              then ok (c_string s, at (take (k - length (front ++ s)) more) j)
              else overruns)
            (omega arith))

pub map-Cut :
    {A B : Type 0} (p : Extract A) (f : A → B) (xs : List ℕ) (a : A) (d m : ℕ)
    → d ≤ m
    → Cut p xs a d m
    → Cut (p >>= λ a. pure (f a)) xs (f a) d m
map-Cut p f xs a d m l P =
    subst (λ l. Cut (p >>= λ a. pure (f a)) l (f a) d m) (append-nil xs)
      (subst (λ j. Cut (p >>= λ a. pure (f a)) (xs ++ []) (f a) j m) {x = d + 0} (omega arith)
        (bind-Cut p (λ a. pure (f a)) xs [] a (f a) d 0 m 0 m P (pure-Cut (f a)) (omega arith)
          (omega arith)))

-- the fields alone
pub Cut-at :
    {A : Type 0} (p : Extract A) (bytes : List ℕ) (a : A) (d m n k : ℕ)
    → Cut p bytes a d m
    → m ≤ n
    → p (at (take k bytes) n)
      ≡ (if leb (length bytes) k then ok (a, at (take (k - length bytes) []) (n - d)) else overruns)
unfolding Cut
Cut-at p bytes a d m n k P h = ap (λ l. p (at (take k l) n)) (sym (append-nil bytes)) ∙ P n k [] h
