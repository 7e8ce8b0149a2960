-- ===== src/Base/Word.antt =====
-- Go's `int` on a 64-bit machine: sums and products wrap around at 2 ^ 63.
use Prim.Native.Nat.{ℕ, ◌+◌, ◌-◌, ◌%◌, ◌<◌, ◌^◌}
use mathlib.Core.Path.{◌≡◌, refl, ◌∙◌}
use native.Mathlib.Omega.{arith}
use campusassistant_api.Base.Tests.{ltb, if◌then◌else◌}
use campusassistant_api.Base.Int.{
  ℤ, pos, negsuc, pos_part, neg_part, ◌+ℤ◌, ◌≤ℤ◌, ◌<ℤ◌, +ℤ_comm, int_laws,
}

abbrev modulus : ℕ
modulus = 2 ^ 64

-- The bit pattern of a number.
unfoldable pub bits_of : ℤ → ℕ
bits_of a = (pos_part a + (modulus - neg_part a % modulus)) % modulus

-- The number that a bit pattern stands for.
unfoldable pub signed : ℕ → ℤ
signed w = if ltb w (2 ^ 63) then pos w else negsuc (modulus - w - 1)

unfoldable pub wrap : ℤ → ℤ
unfolding bits_of signed
wrap a = signed (bits_of a)

bits_of_lt : (a : ℤ) → bits_of a < modulus
unfolding bits_of
bits_of_lt a = omega arith

bits_of-signed : (w : ℕ) → w < modulus → bits_of (signed w) ≡ w
unfolding bits_of signed
bits_of-signed w h = ground arith

bits_of_add : (a b : ℤ) → bits_of (a +ℤ b) ≡ (bits_of a + bits_of b) % modulus
unfolding bits_of
bits_of_add a b = omega int_laws

bits_of-wrap : (a : ℤ) → bits_of (wrap a) ≡ bits_of a
unfolding wrap
bits_of-wrap a = bits_of-signed (bits_of a) (bits_of_lt a)

same_bits : (a b : ℤ) → bits_of a ≡ bits_of b → wrap a ≡ wrap b
unfolding wrap
same_bits a b h = rw h refl

-- Wrapping early changes nothing.
pub wrap-add_wrap : (a b : ℤ) → wrap (wrap a +ℤ b) ≡ wrap (a +ℤ b)
wrap-add_wrap a b =
    same_bits (wrap a +ℤ b) (a +ℤ b) (rw (bits_of_add, bits_of_add, bits_of-wrap) refl)

-- An amount that Go's `int` holds.
abbrev pub Fits : ℤ → Type 0
Fits a = (negsuc (2 ^ 63 - 1) ≤ℤ a) × (a <ℤ pos (2 ^ 63))

pub wrap_exact : (a : ℤ) → Fits a → wrap a ≡ a
unfolding wrap bits_of signed
wrap_exact a h = ground arith

pub wrap-wrap : (a : ℤ) → wrap (wrap a) ≡ wrap a
wrap-wrap a = same_bits (wrap a) a (bits_of-wrap a)

pub wrap_zero : wrap (pos 0) ≡ pos 0
unfolding wrap bits_of signed
wrap_zero = refl

pub wrap-add_wrap_right : (a b : ℤ) → wrap (a +ℤ wrap b) ≡ wrap (a +ℤ b)
wrap-add_wrap_right a b = rw (+ℤ_comm a (wrap b), wrap-add_wrap b a, +ℤ_comm b a) refl

-- An `int` that holds a number: exactly, if the number fits.
abbrev pub Holds : ℤ → ℤ → Type 0
Holds n a = (n ≡ wrap a) × (Fits a → n ≡ a)

pub wrap-Holds : (n a : ℤ) → n ≡ wrap a → Holds n a
wrap-Holds n a h = (h, (λ p. h ∙ wrap_exact a p))
