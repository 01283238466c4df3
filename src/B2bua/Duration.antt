-- ===== src/B2bua/Duration.antt =====
-- Durations as Go has them: nanoseconds in an int64 (`time.Duration` in
-- cmd/b2bua_radius/b2broute.go and call_controller.go).
use go_b2bua.Prelude.{
  ℤ, pos, negsuc, ℕ, suc, ◌-◌, ◌*◌, ◌%◌, Bool, true, false, ltb, if◌then◌else◌, ◌==◌,
}

-- an int64 from its 64 bits
abbrev pub of_bits : ℕ → ℤ
of_bits n = if ltb n 9223372036854775808 then pos n else negsuc (18446744073709551615 - n)

-- `time.Duration(v) * time.Second`, which wraps around
unfoldable pub seconds : ℤ → ℤ
seconds (pos n) = of_bits ((n * 1000000000) % 18446744073709551616)
seconds (negsuc n) =
    of_bits (
      (18446744073709551616 - ((suc n * 1000000000) % 18446744073709551616)) % 18446744073709551616)

abbrev pub is_zero : ℤ → Bool
is_zero (pos n) = n == 0
is_zero (negsuc n) = false

abbrev pub is_positive : ℤ → Bool
is_positive (pos n) = ltb 0 n
is_positive (negsuc n) = false

-- `a > b`
abbrev pub exceeds : ℤ → ℤ → Bool
exceeds (pos a) (pos b) = ltb b a
exceeds (pos a) (negsuc b) = true
exceeds (negsuc a) (pos b) = false
exceeds (negsuc a) (negsuc b) = ltb a b
