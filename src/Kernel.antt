-- ===== src/Kernel.antt =====
-- What every driver returns to the kernel: the C convention of a count or a negated error number.
pub mod Plain
pub mod Misc
use at91_sam9x25_drivers.Prelude.{ℕ, zero, suc, ◌%◌, ◌+◌, ◌^◌, ◌<◌, ◌≡◌, Bool, true, false, leb}

-- The error numbers that the drivers name; `eperm` is -1, and `other` is any further one.
pub data Errno : Type 0 where
  eperm eio enomem eacces efault ebusy enodev einval euclean ecanceled : Errno
  other : ℕ → Errno

-- An `int`, `long` or `ssize_t` result: `val n` is n, `err e` is -e.
pub data Ret : Type 0 where
  val : ℕ → Ret
  err : Errno → Ret

-- `if (ret)`
abbrev pub is_nonzero : Ret → Bool
is_nonzero (val zero) = false
is_nonzero (val (suc n)) = true
is_nonzero (err e) = true

-- `ret < 0`
abbrev pub is_negative : Ret → Bool
is_negative (val n) = false
is_negative (err e) = true

-- `ret == -EUCLEAN`: the data were read, after a correction.
abbrev pub is_euclean : Ret → Bool
is_euclean (err euclean) = true
is_euclean _ = false

-- Conversions to `uint32_t` (also `size_t`, on this 32-bit machine) and to `uint64_t`.
abbrev pub u32 : ℕ → ℕ
u32 n = n % 2 ^ 32

abbrev pub u64 : ℕ → ℕ
u64 n = n % 2 ^ 64

-- `a >= b` on `int`s that are given by their 32-bit patterns.
abbrev pub sge : ℕ → ℕ → Bool
sge a b = leb ((b + 2 ^ 31) % 2 ^ 32) ((a + 2 ^ 31) % 2 ^ 32)

-- The encoding of `ioctl` commands by the kernel's macros: `_IOWR(type, nr, struct)` of a size, and
-- `_IOC_NR(cmd)`, which gives the number back. The direction in a command keeps it from being 0.
pub record Ioctls : Type 0 where
  pub iowr : (magic nr size : ℕ) → ℕ
  pub ioc_nr : ℕ → ℕ
  pub ioc_nr-iowr : (magic nr size : ℕ) → nr < 256 → ioc_nr (iowr magic nr size) ≡ nr
  pub iowr-pos : (magic nr size : ℕ) → 0 < iowr magic nr size
