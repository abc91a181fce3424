-- ===== src/Word.antt =====
-- C arithmetic on signed integers: conversion to w bits, multiplication, division, CLAMP.
use mocp.Prelude.{ℕ, zero, suc, ◌*◌, ◌/◌, ◌≡◌, arith, if◌then◌else◌}
use mocp.Prelude.Int.{ℤ, pos, negsuc, ◌≤ℤ◌, ltb_ℤ}
use mocp.Bytes.{word, of_word, IsWord}

-- the value after a conversion to a signed type of w bits, which keeps the low w bits
abbrev pub wrap : ℕ → ℤ → ℤ
wrap w x = of_word w (word w x)

-- -n
abbrev pub neg_of : ℕ → ℤ
neg_of zero = pos 0
neg_of (suc n) = negsuc n

-- `x * r` for r >= 0
abbrev pub times : ℤ → ℕ → ℤ
times (pos a) r = pos (a * r)
times (negsuc a) r = neg_of (suc a * r)

-- `x / d` for d > 0: towards zero
abbrev pub quot : ℤ → ℕ → ℤ
quot (pos a) d = pos (a / d)
quot (negsuc a) d = neg_of (suc a / d)

-- `CLAMP` of common.h
abbrev pub clamp : ℤ → ℤ → ℤ → ℤ
clamp lo x hi = if ltb_ℤ x lo then lo else if ltb_ℤ hi x then hi else x

-- A value that fits is not changed by the conversion.
pub wrap16-eq : (x : ℤ) → IsWord 16 x → wrap 16 x ≡ x
wrap16-eq (pos n) h = ground arith
wrap16-eq (negsuc n) h = ground arith

pub wrap32-eq : (x : ℤ) → IsWord 32 x → wrap 32 x ≡ x
wrap32-eq (pos n) h = ground arith
wrap32-eq (negsuc n) h = ground arith

pub wrap64-eq : (x : ℤ) → IsWord 64 x → wrap 64 x ≡ x
wrap64-eq (pos n) h = ground arith
wrap64-eq (negsuc n) h = ground arith

pub clamp_bounds : (lo x hi : ℤ) → lo ≤ℤ hi → (lo ≤ℤ clamp lo x hi) × (clamp lo x hi ≤ℤ hi)
clamp_bounds lo x hi h = ground arith

pub clamp-eq : (lo x hi : ℤ) → lo ≤ℤ x → x ≤ℤ hi → clamp lo x hi ≡ x
clamp-eq lo x hi h k = ground arith

pub clamp_mono : (lo x y hi : ℤ) → lo ≤ℤ hi → x ≤ℤ y → clamp lo x hi ≤ℤ clamp lo y hi
clamp_mono lo x y hi h k = ground arith
