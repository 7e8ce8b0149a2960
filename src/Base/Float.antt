-- ===== src/Base/Float.antt =====
-- Go's comparisons of two float64, on their IEEE 754 bit patterns.
use Prim.Native.Nat.{ℕ, ◌%◌}
use mathlib.Core.Bool.{Bool, not, ◌&&◌}
use campusassistant_api.Base.Int.{ℤ, pos, ◌-ℤ◌, ltb_ℤ}
use campusassistant_api.Base.Tests.{ltb, if◌then◌else◌}

-- A float64, as its bit pattern.
abbrev pub Float64 : Type 0
Float64 = ℕ

-- 2 ^ 63, the sign bit
abbrev sign_bit : ℕ
sign_bit = 9_223_372_036_854_775_808

-- +Inf; a larger magnitude is no number
abbrev infinity : ℕ
infinity = 9_218_868_437_227_405_312

-- 100.0
abbrev pub hundred : Float64
hundred = 4_636_737_291_354_636_288

abbrev pub zero_float : Float64
zero_float = 0

abbrev pub is_nan : Float64 → Bool
is_nan x = ltb infinity (x % sign_bit)

-- The order of the numbers is that of these integers; both zeros are 0.
abbrev pub float_key : Float64 → ℤ
float_key x = if ltb x sign_bit then pos x else pos 0 -ℤ pos (x % sign_bit)

unfoldable pub ltb_float : Float64 → Float64 → Bool
ltb_float x y = not (is_nan x) && (not (is_nan y) && ltb_ℤ (float_key x) (float_key y))
