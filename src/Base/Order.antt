-- ===== src/Base/Order.antt =====
-- `<` on the native numbers is well founded, and masks on a byte as arithmetic.
use Prim.Native.Nat.{ℕ, zero, suc, ◌+◌, ◌%◌, ◌<◌, bit_and, bit_or}
use mathlib.Core.Path.{◌≡◌, refl}
use mathlib.Core.Bool.{Bool, true, ◌&&◌}
use mathlib.Core.WellFounded.{Acc, WellFounded}
use native.Mathlib.Omega.{arith}
use overdub.Base.Tests.{◌==◌}

below : (k n : ℕ) → n < k → Acc ◌<◌ n
below zero n h = elim h [ ]
below (suc k) n h = Acc.intro n (λ m hm. below k m (omega arith))

unfoldable pub lt_wf : WellFounded ◌<◌
unfolding below
lt_wf = record { apply = λ n. below (suc n) n (omega arith) }

-- Two functions that agree at every number below `n`, checked by evaluation.
all_equal : (ℕ → ℕ) → (ℕ → ℕ) → ℕ → Bool
all_equal f g zero = true
all_equal f g (suc n) = f n == g n && all_equal f g n

all_equal→eq : (f g : ℕ → ℕ) (n : ℕ) → all_equal f g n ≡ true → (i : ℕ) → i < n → f i ≡ g i
unfolding all_equal
all_equal→eq f g zero e i h = absurd (omega arith)
all_equal→eq f g (suc n) e i h = ground (arith, all_equal→eq f g n (ground arith) i)

pub and_0x7f : (b : ℕ) → b < 256 → bit_and b 0x7f ≡ b % 128
unfolding all_equal
and_0x7f = all_equal→eq _ _ 256 refl

pub or_0x80 : (b : ℕ) → b < 256 → bit_or b 0x80 ≡ b % 128 + 128
unfolding all_equal
or_0x80 = all_equal→eq _ _ 256 refl
