-- ===== src/Base/Int.antt =====
-- Signed integers over the native numbers, under the library's names, with the tests that the
-- source makes on them. `negsuc n` is -(n + 1).
use luna_for_mac.Base.{ℕ, ◌^◌, Bool, true, false, ◌≡◌, ◌↔◌, refl, arith, nat_eq, ltb}

pub data ℤ : Type 0 where
  pos : ℕ → ℤ
  negsuc : ℕ → ℤ

abbrev pub int_eq : ℤ → ℤ → Bool
int_eq (pos a) (pos b) = nat_eq a b
int_eq (negsuc a) (negsuc b) = nat_eq a b
int_eq (pos a) (negsuc b) = false
int_eq (negsuc a) (pos b) = false

pub int_eq_iff : (a b : ℤ) → (int_eq a b ≡ true) ↔ (a ≡ b)
int_eq_iff (pos a) (pos b) = ground arith
int_eq_iff (pos a) (negsuc b) = ground arith
int_eq_iff (negsuc a) (pos b) = ground arith
int_eq_iff (negsuc a) (negsuc b) = ground arith

pub int_eq_refl : (a : ℤ) → int_eq a a ≡ true
int_eq_refl a = (int_eq_iff a a).1 refl

-- Whether the number is one of `intN`, for a half range of 2 ^ (N - 1).
abbrev pub in_signed : ℕ → ℤ → Bool
in_signed half (pos n) = ltb n half
in_signed half (negsuc n) = ltb n half

-- Whether the number is one of `uintN`, for a range of 2 ^ N.
abbrev pub in_unsigned : ℕ → ℤ → Bool
in_unsigned top (pos n) = ltb n top
in_unsigned top (negsuc n) = false

abbrev pub is_int32 : ℤ → Bool
is_int32 = in_signed (2 ^ 31)

abbrev pub is_int64 : ℤ → Bool
is_int64 = in_signed (2 ^ 63)

abbrev pub is_uint32 : ℤ → Bool
is_uint32 = in_unsigned (2 ^ 32)
