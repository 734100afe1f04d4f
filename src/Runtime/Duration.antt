-- ===== src/Runtime/Duration.antt =====
-- `time.Duration(n) * time.Second`, which terminateContainer of procri/pkg/runtimeservice/container.go
-- and ExecSync of procri/pkg/runtimeservice/streaming.go compute: a number of nanoseconds as an int64.
use luna_for_mac.Base.{
  ℕ, suc, ◌-◌, ◌*◌, ◌%◌, ◌^◌, ◌≤◌, ◌<◌, true, false, ◌≡◌, refl, arith, ltb, if◌then◌else◌,
}
use luna_for_mac.Base.Int.{ℤ, pos, negsuc}

-- The int64 of the same 64 bits.
abbrev pub to_int64 : ℕ → ℤ
to_int64 bits = if ltb bits (2 ^ 63) then pos bits else negsuc (2 ^ 64 - 1 - bits)

-- The multiplication wraps around.
unfoldable pub seconds_duration : ℤ → ℤ
seconds_duration (pos n) = to_int64 (n * 1000000000 % 2 ^ 64)
seconds_duration (negsuc n) = to_int64 ((2 ^ 64 - suc n * 1000000000 % 2 ^ 64) % 2 ^ 64)

-- Up to 9223372036 seconds, some 292 years, the duration is exact.
pub seconds_duration-exact :
    (n : ℕ) → n ≤ 9223372036 → seconds_duration (pos n) ≡ pos (n * 1000000000)
unfolding seconds_duration
seconds_duration-exact n h =
    let small : n * 1000000000 % 2 ^ 64 ≡ n * 1000000000 = omega arith in
    let below : ltb (n * 1000000000) (2 ^ 63) ≡ true = ground arith in rw (small, below) refl

-- And from the next second on, up to 18446744073 seconds, it is a time in the past.
pub seconds_duration-wraps :
    (n : ℕ)
    → 9223372036 < n
    → n ≤ 18446744073
    → seconds_duration (pos n) ≡ negsuc (2 ^ 64 - 1 - n * 1000000000)
unfolding seconds_duration
seconds_duration-wraps n low h =
    let small : n * 1000000000 % 2 ^ 64 ≡ n * 1000000000 = omega arith in
    let above : ltb (n * 1000000000) (2 ^ 63) ≡ false = ground arith in rw (small, above) refl
