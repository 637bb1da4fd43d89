-- ===== src/Common/Integers.antt =====
-- Integers over the native numbers.
use laya_codex.Common.{ℕ, ◌+◌, ◌-◌, leb, if◌then◌else◌}

pub data ℤ : Type 0 where
  pos negsuc : ℕ → ℤ

sub : ℕ → ℕ → ℤ
sub a b = if leb b a then pos (a - b) else negsuc (b - a - 1)

infixl 60 ◌+ℤ◌
unfoldable pub ◌+ℤ◌ : ℤ → ℤ → ℤ
unfolding sub
pos a +ℤ pos b = pos (a + b)
pos a +ℤ negsuc b = sub a (b + 1)
negsuc a +ℤ pos b = sub b (a + 1)
negsuc a +ℤ negsuc b = negsuc (a + b + 1)
