-- ===== src/Prelude/Words.antt =====
-- `u32` and `u128` operations as the release profile compiles them: a shift takes its distance
-- modulo the width, and `saturating_*` stops at the largest value.
use Prim.Native.Nat.{ℕ, ◌+◌, ◌-◌, ◌*◌, ◌/◌, ◌%◌, ◌^◌, ◌≤◌, ◌<◌, min}
use mathlib.Core.Path.{◌≡◌}
use native.Mathlib.Nat.{
  one-le-pow, div-le_self, div-lt_iff_lt-mul, div-mul-le_self, lt-div-mul-add, le-div_iff_mul-le,
  mod-eq_of_lt, le_trans, pow-le-pow_right, one-mul,
}
use native.Mathlib.Omega.{arith}

abbrev pub u32_mod : ℕ
u32_mod = 2 ^ 32

abbrev pub u64_max : ℕ
u64_max = 2 ^ 64 - 1

abbrev pub u128_max : ℕ
u128_max = 340282366920938463463374607431768211455

-- `x >> k` on `u32`.
unfoldable pub shr32 : ℕ → ℕ → ℕ
shr32 x k = x / 2 ^ (k % 32)

-- `x << k` on `u32`.
unfoldable pub shl32 : ℕ → ℕ → ℕ
shl32 x k = (x * 2 ^ (k % 32)) % u32_mod

-- `saturating_add` and `saturating_mul` below the largest value `top`.
abbrev pub saturating_add : ℕ → ℕ → ℕ → ℕ
saturating_add top a b = min top (a + b)

abbrev pub saturating_mul : ℕ → ℕ → ℕ → ℕ
saturating_mul top a b = min top (a * b)

pub pow_pos : (k : ℕ) → 0 < 2 ^ k
pow_pos k = one-le-pow k 2 (omega arith)

pub shr32-le : (x k : ℕ) → shr32 x k ≤ x
unfolding shr32
shr32-le x k = div-le_self x (2 ^ (k % 32))

-- Shifting down is monotone.
pub shr32_mono : (x y k : ℕ) → x ≤ y → shr32 x k ≤ shr32 y k
unfolding shr32
shr32_mono x y k h =
    (le-div_iff_mul-le (pow_pos (k % 32))).1 (le_trans (div-mul-le_self x (2 ^ (k % 32))) h)

-- Down and up again: the start of the block of 2 ^ k values that holds `x`, which fits in the word.
pub shl32-shr32 : (x k : ℕ) → x < u32_mod → shl32 (shr32 x k) k ≡ shr32 x k * 2 ^ (k % 32)
unfolding shl32 shr32
shl32-shr32 x k h = mod-eq_of_lt (omega (arith, div-mul-le_self x (2 ^ (k % 32)), h))

pub shr32_bounds :
    (x k : ℕ) → (shr32 x k * 2 ^ (k % 32) ≤ x) × (x < shr32 x k * 2 ^ (k % 32) + 2 ^ (k % 32))
unfolding shr32
shr32_bounds x k = (div-mul-le_self x (2 ^ (k % 32)), lt-div-mul-add (pow_pos (k % 32)))

-- Below the start of block `q`, the block is below `q`.
pub shr32-lt : (x k q : ℕ) → k < 32 → x < q * 2 ^ k → shr32 x k < q
unfolding shr32
shr32-lt x k q small h =
    let e : k % 32 ≡ k = mod-eq_of_lt small in rw e ((div-lt_iff_lt-mul (pow_pos k)).1 h)

-- A bit shifted by a distance stays in the word.
pub shl32-one : (k : ℕ) → shl32 1 k ≡ 2 ^ (k % 32)
unfolding shl32
shl32-one k =
    let small : 2 ^ (k % 32) < u32_mod =
      omega (arith, pow-le-pow_right {n = 2} (omega arith) {i = k % 32} {j = 31} (omega arith)) in
    rw one-mul (mod-eq_of_lt small)
