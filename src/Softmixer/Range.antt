-- ===== src/Softmixer/Range.antt =====
-- The loops process_buffer_* of softmixer.c on samples of signed formats.
use mocp.Prelude.{ℕ, zero, suc, ◌*◌, ◌/◌, ◌≤◌, ◌<◌, ◌≡◌, refl, ap, ◌∙◌, ◌⊎◌, inl, inr, arith}
use mocp.Prelude.Int.{ℤ, pos, negsuc, pos_part, neg_part, ◌≤ℤ◌}
use mocp.Bytes.{IsWord}
use mocp.Word.{
  times, quot, clamp, neg_of, wrap16-eq, wrap32-eq, wrap64-eq, clamp_bounds, clamp-eq, clamp_mono,
}
use mocp.Softmixer.{
  process_s8, process_s16, process_s24, process_s32, s24_min, s24_max, softmixer_max,
}

-- the sample `x` at the gain `r`, in thousandths, cut off at the limits
abbrev pub scaled : ℤ → ℤ → ℕ → ℤ → ℤ
scaled lo hi r x = clamp lo (quot (times x r) 1000) hi

neg_of_parts : (n : ℕ) → (pos_part (neg_of n) ≡ 0) × (neg_part (neg_of n) ≡ n)
neg_of_parts zero = (refl, refl)
neg_of_parts (suc n) = (refl, refl)

times_bound :
    (k r : ℕ) (x : ℤ)
    → pos_part x ≤ k
    → neg_part x ≤ k
    → r ≤ 2000
    → (pos_part (times x r) ≤ k * 2000) × (neg_part (times x r) ≤ k * 2000)
times_bound k r (pos a) h g l = (grind arith, omega arith)
times_bound k r (negsuc a) h g l =
    let p = neg_of_parts (suc a * r) in (omega (arith, p), rw p.1 (grind arith))

times_mono : (r : ℕ) (x y : ℤ) → x ≤ℤ y → times x r ≤ℤ times y r
times_mono r (pos a) (pos b) h = grind arith
times_mono r (pos a) (negsuc b) h = absurd (omega arith)
times_mono r (negsuc a) (pos b) h = omega (arith, neg_of_parts (suc a * r))
times_mono r (negsuc a) (negsuc b) h =
    let le : suc b * r ≤ suc a * r = grind arith in
    omega (arith, neg_of_parts (suc a * r), neg_of_parts (suc b * r), le)

quot_mono : (x y : ℤ) → x ≤ℤ y → quot x 1000 ≤ℤ quot y 1000
quot_mono (pos a) (pos b) h = omega arith
quot_mono (pos a) (negsuc b) h = absurd (omega arith)
quot_mono (negsuc a) (pos b) h = omega (arith, neg_of_parts (suc a / 1000))
quot_mono (negsuc a) (negsuc b) h =
    omega (arith, neg_of_parts (suc a / 1000), neg_of_parts (suc b / 1000))

quot-times_unity : (x : ℤ) → quot (times x 1000) 1000 ≡ x
quot-times_unity (pos a) = ap pos (omega arith)
quot-times_unity (negsuc a) = ground arith

IsWord_of_parts32 : (x : ℤ) → pos_part x < 2147483648 → neg_part x ≤ 2147483648 → IsWord 32 x
IsWord_of_parts32 (pos a) h g = omega arith
IsWord_of_parts32 (negsuc a) h g = omega arith

IsWord_of_parts64 :
    (x : ℤ) → pos_part x < 9223372036854775808 → neg_part x ≤ 9223372036854775808 → IsWord 64 x
IsWord_of_parts64 (pos a) h g = omega arith
IsWord_of_parts64 (negsuc a) h g = omega arith

abbrev pub InRange : ℤ → ℤ → ℤ → Type 0
InRange lo hi x = (lo ≤ℤ x) × (x ≤ℤ hi)

-- what the volume control promises of the samples `x` and `y` of a signed format at the gain `r`
pub record Scaled (f : ℕ → ℤ → ℤ) (lo hi : ℤ) (r : ℕ) (x y : ℤ) : Type 0 where
  pub exact : f r x ≡ scaled lo hi r x
  pub in_bounds : InRange lo hi (f r x)
  pub monotone : f r x ≤ℤ f r y
  pub unity : f 1000 x ≡ x

scaled-Scaled :
    (f : ℕ → ℤ → ℤ) (lo hi : ℤ) (r : ℕ) (x y : ℤ)
    → ((r : ℕ) (x : ℤ) → r ≤ 2000 → InRange lo hi x → f r x ≡ scaled lo hi r x)
    → r ≤ 2000
    → InRange lo hi x
    → InRange lo hi y
    → x ≤ℤ y
    → Scaled f lo hi r x y
scaled-Scaled f lo hi r x y eq h ix iy l =
    let fits : lo ≤ℤ hi = omega arith in
    record {
      exact = eq r x h ix;
      in_bounds = rw (eq r x h ix) (clamp_bounds lo (quot (times x r) 1000) hi fits);
      monotone =
          rw (eq r x h ix, eq r y h iy)
            (clamp_mono lo (quot (times x r) 1000) (quot (times y r) 1000) hi fits
              (quot_mono (times x r) (times y r) (times_mono r x y l)));
      unity =
          eq 1000 x (omega arith) ix
          ∙ ap (λ z. clamp lo z hi) (quot-times_unity x)
          ∙ clamp-eq lo x hi ix.0 ix.1;
    }

times-InRange32 :
    (r : ℕ) (x : ℤ) → r ≤ 2000 → pos_part x ≤ 32768 → neg_part x ≤ 32768 → IsWord 32 (times x r)
times-InRange32 r x h a b =
    let t = times_bound 32768 r x a b h in
    IsWord_of_parts32 (times x r) (omega (arith, t)) (omega (arith, t))

times-InRange64 :
    (r : ℕ) (x : ℤ)
    → r ≤ 2000
    → pos_part x ≤ 2147483648
    → neg_part x ≤ 2147483648
    → IsWord 64 (times x r)
times-InRange64 r x h a b =
    let t = times_bound 2147483648 r x a b h in
    IsWord_of_parts64 (times x r) (omega (arith, t)) (omega (arith, t))

part_zero : (x : ℤ) → (pos_part x ≡ 0) ⊎ (neg_part x ≡ 0)
part_zero (pos a) = inr refl
part_zero (negsuc a) = inl refl

process_s16-eq :
    (r : ℕ) (x : ℤ)
    → r ≤ 2000
    → InRange (negsuc 32767) (pos 32767) x
    → process_s16 r x ≡ scaled (negsuc 32767) (pos 32767) r x
unfolding process_s16
process_s16-eq r x h i =
    rw
      (wrap32-eq (times x r)
        (times-InRange32 r x h (omega (arith, part_zero x)) (omega (arith, part_zero x))))
      refl

process_s24-eq :
    (r : ℕ) (x : ℤ)
    → r ≤ 2000
    → InRange s24_min s24_max x
    → process_s24 r x ≡ scaled s24_min s24_max r x
unfolding process_s24
process_s24-eq r x h i =
    rw
      (wrap64-eq (times x r)
        (times-InRange64 r x h (omega (arith, part_zero x)) (omega (arith, part_zero x))))
      refl

process_s32-eq :
    (r : ℕ) (x : ℤ)
    → r ≤ 2000
    → InRange (negsuc 2147483647) (pos 2147483647) x
    → process_s32 r x ≡ scaled (negsuc 2147483647) (pos 2147483647) r x
unfolding process_s32
process_s32-eq r x h i =
    rw
      (wrap64-eq (times x r)
        (times-InRange64 r x h (omega (arith, part_zero x)) (omega (arith, part_zero x))))
      refl

-- the signed formats that are wide enough for their products
pub data Signed : Type 0 where
  bits_16 bits_24 bits_32 : Signed

abbrev pub process_signed : Signed → ℕ → ℤ → ℤ
process_signed bits_16 = process_s16
process_signed bits_24 = process_s24
process_signed bits_32 = process_s32

abbrev pub least : Signed → ℤ
least bits_16 = negsuc 32767
least bits_24 = s24_min
least bits_32 = negsuc 2147483647

abbrev pub greatest : Signed → ℤ
greatest bits_16 = pos 32767
greatest bits_24 = s24_max
greatest bits_32 = pos 2147483647

-- At any gain that the mixer can have, `process_buffer_s16`, `process_buffer_s24` and `process_buffer_s32` compute
-- the exact product without an overflow, divide it by 1000 towards zero and cut it off at the limits of the
-- format; the result is in range, a larger sample has no smaller result, and the gain 1000 changes no sample.
pub process_signed-Scaled :
    (f : Signed) (r : ℕ) (x y : ℤ)
    → r ≤ softmixer_max
    → InRange (least f) (greatest f) x
    → InRange (least f) (greatest f) y
    → x ≤ℤ y
    → Scaled (process_signed f) (least f) (greatest f) r x y
process_signed-Scaled bits_16 r x y = scaled-Scaled process_s16 _ _ r x y process_s16-eq
process_signed-Scaled bits_24 r x y = scaled-Scaled process_s24 _ _ r x y process_s24-eq
process_signed-Scaled bits_32 r x y = scaled-Scaled process_s32 _ _ r x y process_s32-eq

-- `process_buffer_s8` computes in 16 bits: it is exact where the product fits an `int16_t`.
pub process_s8-eq :
    (r : ℕ) (x : ℤ) → IsWord 16 (times x r) → process_s8 r x ≡ scaled (negsuc 127) (pos 127) r x
unfolding process_s8
process_s8-eq r x w = rw (wrap16-eq (times x r) w) refl
