-- ===== src/Base/Words.antt =====
-- Machine words. `usize` and `u64` are 64 bits wide; an atomic `fetch_add` and `fetch_sub` wrap.
use post_cortex.Base.{ℕ, ◌+◌, ◌-◌, ◌%◌, ◌<◌, ◌≤◌, ◌≡◌, arith}

abbrev pub u64_mod : ℕ
u64_mod = 18446744073709551616

abbrev pub u32_mod : ℕ
u32_mod = 4294967296

-- `fetch_add(n)` of an `AtomicU64` or `AtomicUsize`.
unfoldable pub wrapping_add : ℕ → ℕ → ℕ
wrapping_add a b = (a + b) % u64_mod

-- `fetch_sub(n)`.
unfoldable pub wrapping_sub : ℕ → ℕ → ℕ
wrapping_sub a b = (a + u64_mod - b) % u64_mod

pub wrapping_add_lem : (a b : ℕ) → a + b < u64_mod → wrapping_add a b ≡ a + b
unfolding wrapping_add
wrapping_add_lem a b h = omega arith

pub wrapping_sub_lem : (a b : ℕ) → b ≤ a → a < u64_mod → wrapping_sub a b ≡ a - b
unfolding wrapping_sub
wrapping_sub_lem a b h k = omega arith
