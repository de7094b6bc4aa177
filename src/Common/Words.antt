-- ===== src/Common/Words.antt =====
-- Machine words of the counters: `unsigned int` and the `int` of an `atomic_t`, as bit patterns.
use Prim.Native.Nat.{ℕ, ◌+◌, ◌-◌, ◌%◌, ◌^◌, ◌<◌}
use mathlib.Core.Path.{◌≡◌}
use native.Mathlib.Omega.{arith}

-- x++ and atomic_inc
unfoldable pub inc32 : ℕ → ℕ
inc32 n = (n + 1) % 2 ^ 32

-- x-- and atomic_dec
unfoldable pub dec32 : ℕ → ℕ
dec32 n = (n + (2 ^ 32 - 1)) % 2 ^ 32

pub dec32-inc32 : (n : ℕ) → n < 2 ^ 32 → dec32 (inc32 n) ≡ n
unfolding inc32 dec32
dec32-inc32 n h = omega arith

pub inc32-dec32 : (n : ℕ) → n < 2 ^ 32 → inc32 (dec32 n) ≡ n
unfolding inc32 dec32
inc32-dec32 n h = omega arith
