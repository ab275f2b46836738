-- ===== src/Prelude/Words.antt =====
-- Machine words as native numbers, and byte arrays as memories.
--
-- An array of the source is a function from its indices, so that a write out of its bounds would
-- show as a change of a cell past its end: the bounds are theorems, not consequences of the type.
use Prim.Native.Nat.{ℕ, ◌+◌, ◌-◌, ◌*◌, ◌%◌, ◌^◌}
use mathlib.Core.Bool.{◌&&◌}
use hyper_dpi.Prelude.Tests.{ltb, leb, ◌==◌, if◌then◌else◌}

abbrev pub u8 : ℕ → ℕ
u8 x = x % 2 ^ 8

abbrev pub u16 : ℕ → ℕ
u16 x = x % 2 ^ 16

abbrev pub u32 : ℕ → ℕ
u32 x = x % 2 ^ 32

-- uint32_t subtraction.
abbrev pub sub32 : ℕ → ℕ → ℕ
sub32 a b = (a + 2 ^ 32 - b) % 2 ^ 32

-- uint64_t addition and subtraction.
abbrev pub add64 : ℕ → ℕ → ℕ
add64 a b = (a + b) % 2 ^ 64

abbrev pub sub64 : ℕ → ℕ → ℕ
sub64 a b = (a + 2 ^ 64 - b) % 2 ^ 64

abbrev pub Memory : Type 0
Memory = ℕ → ℕ

-- `m[i] = v`.
abbrev pub update {ℓ} : {A : Type ℓ} → (ℕ → A) → ℕ → A → ℕ → A
update m i v j = if i == j then v else m j

-- `memmove(m + shift, m, n)`.
abbrev pub memmove {ℓ} : {A : Type ℓ} → (ℕ → A) → ℕ → ℕ → ℕ → A
memmove m shift n j = if leb shift j && ltb j (shift + n) then m (j - shift) else m j

-- `memset(m, v, n)`.
abbrev pub memset {ℓ} : {A : Type ℓ} → (ℕ → A) → A → ℕ → ℕ → A
memset m v n j = if ltb j n then v else m j

-- Big-endian loads, `rte_be_to_cpu_16` and `rte_be_to_cpu_32`.
abbrev pub be16 : Memory → ℕ → ℕ
be16 m i = m i * 256 + m (i + 1)

abbrev pub be32 : Memory → ℕ → ℕ
be32 m i = be16 m i * 2 ^ 16 + be16 m (i + 2)

-- A plain 32-bit load on x86.
abbrev pub le32 : Memory → ℕ → ℕ
le32 m i = m i + m (i + 1) * 2 ^ 8 + m (i + 2) * 2 ^ 16 + m (i + 3) * 2 ^ 24
