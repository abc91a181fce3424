-- ===== src/AudioConversion/Sign.antt =====
-- `change_sign` of audio_conversion.c and its loops.
use mocp.Prelude.{
  ℕ, zero, suc, ◌-◌, ◌*◌, ◌^◌, ◌<◌, ◌≡◌, refl, ap, ap₂, map, All, ◌∙◌, none, some, List, [], ◌∷◌,
  length, arith,
}
use mocp.Prelude.Int.{pos, ◌+ℤ◌}
use mocp.Bytes.{of_word}
use mocp.Sound.{Format}
use mocp.AudioConversion.{flip, flip_loop, change_sign, with_format}

-- a flip of the top bit of a number in range: it stays in range, can be undone, and raises the level by half the range
record Raises (w k : ℕ) (half : ℕ) (x : ℕ) : Type 0 where
  bounded : flip k x < 2 ^ w
  undone : flip k (flip k x) ≡ x
  raised : pos (flip k x) ≡ of_word w x +ℤ pos half

flip7-Raises : (x : ℕ) → x < 2 ^ 8 → Raises 8 7 128 x
unfolding ◌+ℤ◌
flip7-Raises x h = record { bounded = ground arith; undone = ground arith; raised = ground arith }

flip15-Raises : (x : ℕ) → x < 2 ^ 16 → Raises 16 15 32768 x
unfolding ◌+ℤ◌
flip15-Raises x h = record { bounded = ground arith; undone = ground arith; raised = ground arith }

flip31-Raises : (x : ℕ) → x < 2 ^ 32 → Raises 32 31 2147483648 x
unfolding ◌+ℤ◌
flip31-Raises x h = record { bounded = ground arith; undone = ground arith; raised = ground arith }

flip_loop-map :
    (k : ℕ) (buf : List ℕ) (n : ℕ) → n ≡ length buf → flip_loop k n buf ≡ some (map (flip k) buf)
unfolding flip_loop
flip_loop-map k [] zero e = refl
flip_loop-map k [] (suc n) e = absurd (omega arith)
flip_loop-map k (x ∷ buf) zero e = absurd (omega arith)
flip_loop-map k (x ∷ buf) (suc n) e = rw (flip_loop-map k buf n (omega arith)) refl

-- a loop that goes on behind the end of the buffer
pub flip_loop_overrun : (k : ℕ) (buf : List ℕ) (n : ℕ) → length buf < n → flip_loop k n buf ≡ none
unfolding flip_loop
flip_loop_overrun k buf zero h = absurd (omega arith)
flip_loop_overrun k [] (suc n) h = refl
flip_loop_overrun k (x ∷ buf) (suc n) h = rw (flip_loop_overrun k buf n (omega arith)) refl

level_each :
    (w k half : ℕ)
    → ((x : ℕ) → x < 2 ^ w → Raises w k half x)
    → (buf : List ℕ) → All (λ x. x < 2 ^ w) buf
    → (map pos (map (flip k) buf) ≡ map (λ x. of_word w x +ℤ pos half) buf)
      × (map (flip k) (map (flip k) buf) ≡ buf)
level_each w k half r [] a = (refl, refl)
level_each w k half r (x ∷ buf) a =
    let rest = level_each w k half r buf a.1 in
    let one = r x a.0 in (ap₂ ◌∷◌ one.raised rest.0, ap₂ ◌∷◌ one.undone rest.1)

-- a signed format, its unsigned twin, the bits and the bytes of a sample
pub data Twins : Format → Format → ℕ → ℕ → Type 0 where
  eight : Twins Format.s8 Format.u8 8 1
  sixteen : Twins Format.s16 Format.u16 16 2
  thirty_two : Twins Format.s32 Format.u32 32 4

-- change_sign of a whole buffer from a signed format of 8, 16 or 32 bits to the unsigned one of as
-- many bits adds half the range to the level of every sample, and change_sign back gives the
-- buffer of before.
pub change_sign-raises :
    {s u : Format} {w bps : ℕ}
    → Twins s u w bps
    → (buf : List ℕ) → All (λ x. x < 2 ^ w) buf
    → (out : List ℕ) × (change_sign buf (length buf * bps) s ≡ some (u, out))
      × (map pos out ≡ map (λ x. of_word w x +ℤ pos (2 ^ (w - 1))) buf)
      × (change_sign out (length out * bps) u ≡ some (s, buf))
unfolding change_sign
change_sign-raises eight buf a =
    let r = level_each 8 7 128 flip7-Raises buf a in
    (
      map (flip 7) buf,
      ap (with_format Format.u8) (flip_loop-map 7 buf _ (omega arith)),
      r.0,
      ap (with_format Format.s8) (flip_loop-map 7 (map (flip 7) buf) _ (omega arith) ∙ ap some r.1),
    )
change_sign-raises sixteen buf a =
    let r = level_each 16 15 32768 flip15-Raises buf a in
    (
      map (flip 15) buf,
      ap (with_format Format.u16) (flip_loop-map 15 buf _ (omega arith)),
      r.0,
      ap (with_format Format.s16)
          (flip_loop-map 15 (map (flip 15) buf) _ (omega arith) ∙ ap some r.1),
    )
change_sign-raises thirty_two buf a =
    let r = level_each 32 31 2147483648 flip31-Raises buf a in
    (
      map (flip 31) buf,
      ap (with_format Format.u32) (flip_loop-map 31 buf _ (omega arith)),
      r.0,
      ap (with_format Format.s32)
          (flip_loop-map 31 (map (flip 31) buf) _ (omega arith) ∙ ap some r.1),
    )
