-- ===== src/Prelude/Ints.antt =====
-- The type int, without its bounds.
use Prim.Native.Nat.{ℕ, ◌+◌, ◌-◌}
use openptt.Prelude.Tests.{leb, if◌then◌else◌}

-- `negsuc n` is -(n + 1).
pub data ℤ : Type 0 where
  pos : ℕ → ℤ
  negsuc : ℕ → ℤ

-- a - b
abbrev pub sub_int : (a b : ℕ) → ℤ
sub_int a b = if leb b a then pos (a - b) else negsuc (b - a - 1)

infixl 65 ◌-ℤ◌
abbrev pub ◌-ℤ◌ : ℤ → ℤ → ℤ
pos a -ℤ pos b = sub_int a b
pos a -ℤ negsuc b = pos (a + b + 1)
negsuc a -ℤ pos b = negsuc (a + b)
negsuc a -ℤ negsuc b = sub_int b a

-- -a
abbrev pub neg : ℤ → ℤ
neg a = pos 0 -ℤ a
