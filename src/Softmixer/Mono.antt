-- ===== src/Softmixer/Mono.antt =====
-- `mix_mono_s16` of softmixer.c: frames and their averages.
use mocp.Prelude.{
  some, true, ltb, ℕ, zero, suc, ◌+◌, ◌*◌, ◌/◌, ◌≤◌, ◌≡◌, refl, ap, ap₂, ◌∙◌, arith, List, [], ◌∷◌,
  ◌++◌, length, replicate, joined, All, length-append, take-append_self, drop-append_self,
}
use mocp.Prelude.Int.{ℤ, pos, negsuc, pos_part, neg_part, ◌≤ℤ◌, ◌+ℤ◌, +ℤ_comm, int_laws}
use native.Mathlib.Nat.{div-le_of_le-mul, mul_comm}
use mocp.Bytes.{IsWord}
use mocp.Word.{quot, clamp, neg_of, wrap32-eq, clamp-eq}
use mocp.Softmixer.{sum_frame, mono_loop, mean_by, mix_mono_s16}

-- each frame replaced by `channels` copies of what `mean` makes of it
unfoldable pub averaged : {A : Type 0} → (List A → A) → ℕ → List (List A) → List A
averaged mean channels [] = []
averaged mean channels (f ∷ fs) = replicate channels (mean f) ++ averaged mean channels fs

mono_loop-averaged :
    {A : Type 0} (mean : List A → A) (c fuel : ℕ) (fs : List (List A))
    → All (λ f. length f ≡ suc c) fs
    → length (joined fs) ≤ fuel
    → mono_loop fuel mean (suc c) (joined fs) ≡ averaged mean (suc c) fs
unfolding mono_loop joined averaged
mono_loop-averaged mean c zero [] h l = refl
mono_loop-averaged mean c (suc fuel) [] h l = refl
mono_loop-averaged mean c zero ((x ∷ f) ∷ fs) h l = absurd (omega arith)
mono_loop-averaged mean c fuel ([] ∷ fs) h l = absurd (omega (arith, h.0))
mono_loop-averaged mean c (suc fuel) ((x ∷ f) ∷ fs) h l =
    rw
      (
        take-append_self c f (joined fs) (omega (arith, h.0)),
        drop-append_self c f (joined fs) (omega (arith, h.0)),
      )
      (ap (λ r. replicate (suc c) (mean (x ∷ f)) ++ r)
        (mono_loop-averaged mean c fuel fs h.1 (omega (arith, length-append f (joined fs)))))

-- the samples of a frame added up
unfoldable pub total : List ℤ → ℤ
total [] = pos 0
total (x ∷ xs) = x +ℤ total xs

abbrev pub IsSample : ℤ → Type 0
IsSample x = (negsuc 32767 ≤ℤ x) × (x ≤ℤ pos 32767)

IsWord_of_bounds : (x : ℤ) → pos_part x ≤ 2147483647 → neg_part x ≤ 2147483648 → IsWord 32 x
IsWord_of_bounds (pos a) h g = omega arith
IsWord_of_bounds (negsuc a) h g = omega arith

plus_bounds :
    (a x : ℤ)
    → IsSample x
    → (pos_part (a +ℤ x) ≤ pos_part a + 32767) × (neg_part (a +ℤ x) ≤ neg_part a + 32768)
unfolding ◌+ℤ◌
plus_bounds a x h = ground arith

-- A sum that starts at `acc` and cannot leave 32 bits is exact.
sum_frame-total :
    (xs : List ℤ) (acc : ℤ)
    → All IsSample xs
    → pos_part acc + 32767 * length xs ≤ 2147483647
    → neg_part acc + 32768 * length xs ≤ 2147483648
    → sum_frame 32 acc xs ≡ acc +ℤ total xs
unfolding sum_frame total
sum_frame-total [] acc a p n = omega int_laws
sum_frame-total (x ∷ xs) acc a p n =
    let b = plus_bounds acc x a.0 in
    let r = sum_frame-total xs (acc +ℤ x) a.1 (omega (arith, b)) (omega (arith, b)) in
    ap (λ z. sum_frame 32 z xs)
      (wrap32-eq (acc +ℤ x) (IsWord_of_bounds (acc +ℤ x) (omega (arith, b)) (omega (arith, b))))
    ∙ r
    ∙ omega int_laws

total_bounds :
    (xs : List ℤ)
    → All IsSample xs
    → (pos_part (total xs) ≤ 32767 * length xs) × (neg_part (total xs) ≤ 32768 * length xs)
unfolding total
total_bounds [] a = (omega arith, omega arith)
total_bounds (x ∷ xs) a =
    let r = total_bounds xs a.1 in
    let b = plus_bounds (total xs) x a.0 in
    rw (+ℤ_comm x (total xs)) (omega (arith, r, b), omega (arith, r, b))

neg_of_bounds : (n : ℕ) → n ≤ 32768 → IsSample (neg_of n)
neg_of_bounds zero h = (omega arith, omega arith)
neg_of_bounds (suc n) h = (omega arith, omega arith)

quot-IsSample :
    (c : ℕ) (x : ℤ) → pos_part x ≤ 32767 * c → neg_part x ≤ 32768 * c → IsSample (quot x c)
quot-IsSample c (pos a) p n =
    let q = div-le_of_le-mul c {m = a} {n = 32767} (omega (arith, mul_comm c 32767)) in
    (omega arith, omega (arith, q))
quot-IsSample c (negsuc a) p n =
    neg_of_bounds (suc a / c)
      (div-le_of_le-mul c {m = suc a} {n = 32768} (omega (arith, mul_comm c 32768)))

-- The mean that the code computes is the exact average, rounded towards zero.
mean_s16 :
    (c : ℕ) (f : List ℤ)
    → length f ≡ c
    → c ≤ 65535
    → All IsSample f
    → mean_by 32 (λ m. clamp (negsuc 32767) m (pos 32767)) c f ≡ quot (total f) c
mean_s16 c f e k a =
    let t = total_bounds f a in
    let q = quot-IsSample c (total f) (omega (arith, t, e)) (omega (arith, t, e)) in
    ap (λ z. clamp (negsuc 32767) (quot z c) (pos 32767)) {y = total f}
      (sum_frame-total f (pos 0) a (omega (arith, e)) (omega (arith, e)) ∙ omega int_laws)
    ∙ clamp-eq (negsuc 32767) (quot (total f) c) (pos 32767) q.0 q.1

averaged_cong :
    {A : Type 0} (g h : List A → A) (c : ℕ) (fs : List (List A))
    → All (λ f. g f ≡ h f) fs
    → averaged g c fs ≡ averaged h c fs
unfolding averaged
averaged_cong g h c [] e = refl
averaged_cong g h c (f ∷ fs) e = ap₂ (λ m r. replicate c m ++ r) e.0 (averaged_cong g h c fs e.1)

means_s16 :
    (c : ℕ) (fs : List (List ℤ))
    → c ≤ 65535
    → All (λ f. length f ≡ c) fs
    → All (All IsSample) fs
    → All (λ f. mean_by 32 (λ m. clamp (negsuc 32767) m (pos 32767)) c f ≡ quot (total f) c) fs
means_s16 c [] k e a = tt
means_s16 c (f ∷ fs) k e a = (mean_s16 c f e.0 k a.0, means_s16 c fs k e.1 a.1)

-- `mix_mono_s16` on whole frames of 2 to 65535 channels passes its assertion: every sample of a
-- frame becomes the average of the frame's samples, rounded towards zero; no sum overflows and the
-- CLAMP cuts nothing off.
pub mix_mono_s16-averaged :
    (c : ℕ) (fs : List (List ℤ))
    → 1 ≤ c
    → suc c ≤ 65535
    → All (λ f. length f ≡ suc c) fs
    → All (All IsSample) fs
    → mix_mono_s16 (suc c) (joined fs) ≡ some (averaged (λ f. quot (total f) (suc c)) (suc c) fs)
unfolding mix_mono_s16
mix_mono_s16-averaged c fs two k e a =
    let asserted : ltb 1 (suc c) ≡ true = ground arith in
    rw (asserted, mix_mono_s16)
      (ap some (
        mono_loop-averaged (mean_by 32 (λ m. clamp (negsuc 32767) m (pos 32767)) (suc c)) c
          (length (joined fs)) fs e (omega arith)
        ∙ averaged_cong (mean_by 32 (λ m. clamp (negsuc 32767) m (pos 32767)) (suc c))
            (λ f. quot (total f) (suc c)) (suc c) fs (means_s16 (suc c) fs k e a)))
