-- ===== src/Prelude/Float.antt =====
-- The floating-point numbers that are finite and not negative, exactly: such a number is a natural
-- number over a power of two.
use Prim.Native.Nat.{ℕ, zero, suc, ◌+◌, ◌*◌, ◌/◌, ◌%◌}
use mathlib.Core.Bool.{Bool, ◌&&◌, ◌||◌}
use graduationp.Prelude.Tests.{ltb, ◌==ℕ◌, if◌then◌else◌}
use graduationp.Prelude.Text.{String, ◌++ˢ◌, show_nat}

-- `numerator / 2 ^ exponent`
pub record Float : Type 0 where
  pub numerator : ℕ
  pub exponent : ℕ

abbrev pub pow : ℕ → ℕ → ℕ
pow b zero = 1
pow b (suc n) = b * pow b n

-- `x > n`
unfoldable pub above : ℕ → Float → Bool
above n x = ltb (n * pow 2 x.exponent) x.numerator

-- `a / b` to the nearest whole number, and to the even one in the middle
unfoldable pub nearest : ℕ → ℕ → ℕ
nearest a b =
    let q = a / b in
    let twice = a % b * 2 in if ltb b twice || (b ==ℕ twice && q % 2 ==ℕ 1) then q + 1 else q

-- the last `n` decimal digits
last_digits : ℕ → ℕ → String
unfolding show_nat
last_digits zero m = ""
last_digits (suc n) m = last_digits n (m / 10) ++ˢ show_nat (m % 10)

-- `f"{x:.nf}"`
unfoldable pub show_fixed : ℕ → Float → String
unfolding nearest last_digits
show_fixed n x =
    let m = nearest (x.numerator * pow 10 n) (pow 2 x.exponent) in
    show_nat (m / pow 10 n) ++ˢ "." ++ˢ last_digits n m
