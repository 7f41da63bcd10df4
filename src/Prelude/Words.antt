-- ===== src/Prelude/Words.antt =====
-- Unsigned machine integers: the ranges, the checked operations and the narrowing casts.
use Prim.Native.Nat.{ℕ, ◌+◌, ◌-◌, ◌*◌, ◌/◌, ◌%◌, ◌^◌, ◌<◌}
use mathlib.Core.Option.{Option, none, some}
use solana_instructions_intr.Prelude.Tests.{ltb, leb, ◌==◌, if◌then◌else◌}

abbrev pub u8_mod : ℕ
u8_mod = 2 ^ 8

abbrev pub u16_mod : ℕ
u16_mod = 2 ^ 16

abbrev pub u64_mod : ℕ
u64_mod = 2 ^ 64

abbrev pub u128_mod : ℕ
u128_mod = 2 ^ 128

abbrev pub IsU8 : ℕ → Type 0
IsU8 n = n < u8_mod

abbrev pub IsU16 : ℕ → Type 0
IsU16 n = n < u16_mod

abbrev pub IsU64 : ℕ → Type 0
IsU64 n = n < u64_mod

abbrev pub IsU128 : ℕ → Type 0
IsU128 n = n < u128_mod

-- `n as u64`: the low 64 bits.
abbrev pub as_u64 : ℕ → ℕ
as_u64 n = n % u64_mod

-- The checked operations of an unsigned type that holds the numbers below `m`.
abbrev pub checked_add : ℕ → ℕ → ℕ → Option ℕ
checked_add m a b = if ltb (a + b) m then some (a + b) else none

abbrev pub checked_mul : ℕ → ℕ → ℕ → Option ℕ
checked_mul m a b = if ltb (a * b) m then some (a * b) else none

abbrev pub checked_sub : ℕ → ℕ → Option ℕ
checked_sub a b = if leb b a then some (a - b) else none

abbrev pub checked_div : ℕ → ℕ → Option ℕ
checked_div a b = if b == 0 then none else some (a / b)
