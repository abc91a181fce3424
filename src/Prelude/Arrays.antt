-- ===== src/Prelude/Arrays.antt =====
-- C arrays as lists: `memcpy` into and out of an array, and lists tabulated by index.
use Prim.Native.Nat.{ℕ, zero, suc, ◌+◌, ◌-◌, ◌≤◌, ◌<◌, min}
use mathlib.Core.Path.{◌≡◌, refl, ap, ap₂, ◌∙◌, sym}
use mathlib.Core.List.{List, [], ◌∷◌, ◌++◌, append-nil}
use native.Mathlib.Omega.{arith}
use mocp.Prelude.Tests.{ltb, if◌then◌else◌}
use mocp.Prelude.Lists.{length, get_or, take, drop, length-take, length-drop}

module _ {ℓ} {A : Type ℓ} where
  -- memcpy (array + o, xs, length xs); what would lie behind the end is not written.
  pub blit : List A → ℕ → List A → List A
  blit [] o xs = []
  blit (b ∷ bs) zero [] = b ∷ bs
  blit (b ∷ bs) zero (x ∷ xs) = x ∷ blit bs zero xs
  blit (b ∷ bs) (suc o) xs = b ∷ blit bs o xs

  -- the n elements from index i on, as memcpy reads them
  abbrev pub slice : List A → ℕ → ℕ → List A
  slice b i n = take n (drop i b)

  pub length-blit : (b : List A) (o : ℕ) (xs : List A) → length (blit b o xs) ≡ length b
  unfolding blit
  length-blit [] o xs = refl
  length-blit (b ∷ bs) zero [] = refl
  length-blit (b ∷ bs) zero (x ∷ xs) = ap suc (length-blit bs zero xs)
  length-blit (b ∷ bs) (suc o) xs = ap suc (length-blit bs o xs)

module _ {A : Type 0} where
  -- A read after a memcpy: the copied bytes inside the range written, the old ones elsewhere.
  pub get_or-blit :
      (b : List A) (o : ℕ) (xs : List A) (j : ℕ) (d : A)
      → o + length xs ≤ length b
      → get_or (blit b o xs) j d ≡ (
          if ltb j o
          then get_or b j d
          else if ltb (j - o) (length xs)
          then get_or xs (j - o) d
          else get_or b j d)
  unfolding blit
  get_or-blit [] zero [] j d h = ground arith
  get_or-blit [] zero (x ∷ xs) j d h = absurd (omega arith)
  get_or-blit [] (suc o) xs j d h = absurd (omega arith)
  get_or-blit (b ∷ bs) zero [] j d h = ground arith
  get_or-blit (b ∷ bs) zero (x ∷ xs) zero d h = ground arith
  get_or-blit (b ∷ bs) zero (x ∷ xs) (suc j) d h = ground (arith, get_or-blit bs zero xs j d)
  get_or-blit (b ∷ bs) (suc o) xs zero d h = ground arith
  get_or-blit (b ∷ bs) (suc o) xs (suc j) d h = ground (arith, get_or-blit bs o xs j d)

module _ {ℓ} {A : Type ℓ} where
  pub get_or-drop : (b : List A) (i j : ℕ) (d : A) → get_or (drop i b) j d ≡ get_or b (i + j) d
  get_or-drop b zero j d = ap (λ k. get_or b k d) (omega arith)
  get_or-drop [] (suc i) j d = refl
  get_or-drop (x ∷ b) (suc i) j d =
      get_or-drop b i j d ∙ ap (λ k. get_or (x ∷ b) k d) {x = suc (i + j)} (omega arith)

  pub get_or-take :
      (n : ℕ) (b : List A) (j : ℕ) (d : A) → j < n → get_or (take n b) j d ≡ get_or b j d
  get_or-take zero b j d h = elim h [ ]
  get_or-take (suc n) [] j d h = refl
  get_or-take (suc n) (x ∷ b) zero d h = refl
  get_or-take (suc n) (x ∷ b) (suc j) d h = get_or-take n b j d (omega arith)

  pub take-nil : (n : ℕ) → take {A = A} n [] ≡ []
  take-nil zero = refl
  take-nil (suc n) = refl

  pub drop-nil : (n : ℕ) → drop {A = A} n [] ≡ []
  drop-nil zero = refl
  drop-nil (suc n) = refl

  pub length-slice : (b : List A) (i n : ℕ) → i + n ≤ length b → length (slice b i n) ≡ n
  length-slice b i n h = omega (arith, length-take n (drop i b), length-drop i b)

  pub eq-nil_of_length : (xs : List A) → length xs ≡ 0 → xs ≡ []
  eq-nil_of_length [] e = refl
  eq-nil_of_length (x ∷ xs) e = absurd (omega arith)

  pub take-append-take :
      (n m k : ℕ) (xs : List A) → k ≡ n + m → take n xs ++ take m (drop n xs) ≡ take k xs
  take-append-take zero m k xs e = ap (λ j. take j xs) {x = m} (omega arith)
  take-append-take (suc n) m zero xs e = absurd (omega arith)
  take-append-take (suc n) m (suc k) [] e = take-nil m
  take-append-take (suc n) m (suc k) (x ∷ xs) e =
      ap (λ l. x ∷ l) (take-append-take n m k xs (omega arith))

  pub drop-drop : (n m k : ℕ) (xs : List A) → k ≡ n + m → drop m (drop n xs) ≡ drop k xs
  drop-drop zero m k xs e = ap (λ j. drop j xs) {x = m} (omega arith)
  drop-drop (suc n) m zero xs e = absurd (omega arith)
  drop-drop (suc n) m (suc k) [] e = drop-nil m
  drop-drop (suc n) m (suc k) (x ∷ xs) e = drop-drop n m k xs (omega arith)

  pub take-take : (k n : ℕ) (xs : List A) → k ≤ n → take k (take n xs) ≡ take k xs
  take-take zero n xs h = refl
  take-take (suc k) zero xs h = elim h [ ]
  take-take (suc k) (suc n) [] h = refl
  take-take (suc k) (suc n) (x ∷ xs) h = ap (λ l. x ∷ l) (take-take k n xs (omega arith))

  pub take-blit :
      (b : List A) (o n : ℕ) (xs : List A)
      → n ≡ o + length xs
      → n ≤ length b
      → take n (blit b o xs) ≡ take o b ++ xs
  unfolding blit
  take-blit [] zero n [] e h = take-nil n
  take-blit [] zero n (x ∷ xs) e h = absurd (omega arith)
  take-blit [] (suc o) n xs e h = absurd (omega arith)
  take-blit (b ∷ bs) zero zero [] e h = refl
  take-blit (b ∷ bs) zero (suc n) [] e h = absurd (omega arith)
  take-blit (b ∷ bs) zero zero (x ∷ xs) e h = absurd (omega arith)
  take-blit (b ∷ bs) zero (suc n) (x ∷ xs) e h =
      ap (λ l. x ∷ l) (take-blit bs zero n xs (omega arith) (omega arith))
  take-blit (b ∷ bs) (suc o) zero xs e h = absurd (omega arith)
  take-blit (b ∷ bs) (suc o) (suc n) xs e h =
      ap (λ l. b ∷ l) (take-blit bs o n xs (omega arith) (omega arith))

  pub take-append_left : (n : ℕ) (xs ys : List A) → n ≤ length xs → take n (xs ++ ys) ≡ take n xs
  take-append_left zero xs ys h = refl
  take-append_left (suc n) [] ys h = elim h [ ]
  take-append_left (suc n) (x ∷ xs) ys h = ap (λ l. x ∷ l) (take-append_left n xs ys (omega arith))

  pub drop-append_left :
      (n : ℕ) (xs ys : List A) → n ≤ length xs → drop n (xs ++ ys) ≡ drop n xs ++ ys
  drop-append_left zero xs ys h = refl
  drop-append_left (suc n) [] ys h = elim h [ ]
  drop-append_left (suc n) (x ∷ xs) ys h = drop-append_left n xs ys (omega arith)

  pub take-append_self : (n : ℕ) (xs ys : List A) → n ≡ length xs → take n (xs ++ ys) ≡ xs
  take-append_self zero [] ys h = refl
  take-append_self zero (x ∷ xs) ys h = absurd (omega arith)
  take-append_self (suc n) [] ys h = absurd (omega arith)
  take-append_self (suc n) (x ∷ xs) ys h = ap (λ l. x ∷ l) (take-append_self n xs ys (omega arith))

  pub drop-append_self : (n : ℕ) (xs ys : List A) → n ≡ length xs → drop n (xs ++ ys) ≡ ys
  drop-append_self zero [] ys h = refl
  drop-append_self zero (x ∷ xs) ys h = absurd (omega arith)
  drop-append_self (suc n) [] ys h = absurd (omega arith)
  drop-append_self (suc n) (x ∷ xs) ys h = drop-append_self n xs ys (omega arith)

  -- Two chunks copied one after the other are one.
  pub slice-append-slice :
      (xs : List A) (i j n m k : ℕ)
      → j ≡ i + n
      → k ≡ n + m
      → slice xs i n ++ slice xs j m ≡ slice xs i k
  slice-append-slice xs i j n m k e f =
      ap (λ l. take n (drop i xs) ++ take m l) (sym (drop-drop i n j xs e))
      ∙ take-append-take n m k (drop i xs) f

  -- Taking or dropping more than there is stops at the end.
  pub take-min : (n m : ℕ) (xs : List A) → m ≡ min n (length xs) → take m xs ≡ take n xs
  take-min zero m xs e = ap (λ k. take k xs) {y = 0} (omega arith)
  take-min (suc n) m [] e = take-nil m
  take-min (suc n) zero (x ∷ xs) e = absurd (omega arith)
  take-min (suc n) (suc m) (x ∷ xs) e = ap (λ l. x ∷ l) (take-min n m xs (omega arith))

  pub drop-min : (n m : ℕ) (xs : List A) → m ≡ min n (length xs) → drop m xs ≡ drop n xs
  drop-min zero m xs e = ap (λ k. drop k xs) {y = 0} (omega arith)
  drop-min (suc n) m [] e = drop-nil m
  drop-min (suc n) zero (x ∷ xs) e = absurd (omega arith)
  drop-min (suc n) (suc m) (x ∷ xs) e = drop-min n m xs (omega arith)

  pub append-slice_none : (ys xs : List A) (i n : ℕ) → n ≡ 0 → ys ++ slice xs i n ≡ ys
  append-slice_none ys xs i n e = rw e (append-nil ys)

  -- f i, f (i + 1), ..., f (i + n - 1)
  pub tabulate : ℕ → ℕ → (ℕ → A) → List A
  tabulate zero i f = []
  tabulate (suc n) i f = f i ∷ tabulate n (suc i) f

  pub length-tabulate : (n i : ℕ) (f : ℕ → A) → length (tabulate n i f) ≡ n
  unfolding tabulate
  length-tabulate zero i f = refl
  length-tabulate (suc n) i f = ap suc (length-tabulate n (suc i) f)

  pub tabulate-ext :
      (n i j : ℕ) (f g : ℕ → A)
      → ((k : ℕ) → k < n → f (i + k) ≡ g (j + k))
      → tabulate n i f ≡ tabulate n j g
  unfolding tabulate
  tabulate-ext zero i j f g h = refl
  tabulate-ext (suc n) i j f g h =
      ap₂ ◌∷◌ (ap f (omega arith) ∙ h 0 (omega arith) ∙ ap g (omega arith)) (
        tabulate-ext n (suc i) (suc j) f g
          λ k l. ap f (omega arith) ∙ h (suc k) (omega arith) ∙ ap g (omega arith))

  pub tabulate-eq :
      (xs : List A) (i : ℕ) (f : ℕ → A) (d : A)
      → ((j : ℕ) → j < length xs → f (i + j) ≡ get_or xs j d)
      → tabulate (length xs) i f ≡ xs
  unfolding tabulate
  tabulate-eq [] i f d h = refl
  tabulate-eq (x ∷ xs) i f d h =
      ap₂ ◌∷◌ (ap f (omega arith) ∙ h 0 (omega arith))
        (tabulate-eq xs (suc i) f d λ j l. ap f (omega arith) ∙ h (suc j) (omega arith))

  pub tabulate-append :
      (m k n i j : ℕ) (f : ℕ → A)
      → n ≡ m + k
      → j ≡ i + m
      → tabulate n i f ≡ tabulate m i f ++ tabulate k j f
  unfolding tabulate
  tabulate-append zero k n i j f e e' =
      ap₂ (λ a b. tabulate a b f) {x = n} {y = k} (omega arith) (omega arith)
  tabulate-append (suc m) k zero i j f e e' = absurd (omega arith)
  tabulate-append (suc m) k (suc n) i j f e e' =
      ap (λ l. f i ∷ l) (tabulate-append m k n (suc i) j f (omega arith) (omega arith))

  pub take-tabulate : (k n i : ℕ) (f : ℕ → A) → k ≤ n → take k (tabulate n i f) ≡ tabulate k i f
  unfolding tabulate
  take-tabulate zero n i f h = refl
  take-tabulate (suc k) zero i f h = elim h [ ]
  take-tabulate (suc k) (suc n) i f h =
      ap (λ l. f i ∷ l) (take-tabulate k n (suc i) f (omega arith))

  pub drop-tabulate :
      (k n i j m : ℕ) (f : ℕ → A) → n ≡ k + m → j ≡ i + k → drop k (tabulate n i f) ≡ tabulate m j f
  unfolding tabulate
  drop-tabulate zero n i j m f e e' =
      ap₂ (λ a b. tabulate a b f) {x = n} {y = m} (omega arith) (omega arith)
  drop-tabulate (suc k) zero i j m f e e' = absurd (omega arith)
  drop-tabulate (suc k) (suc n) i j m f e e' =
      drop-tabulate k n (suc i) j m f (omega arith) (omega arith)
