-- ===== src/Kernel/Plain.antt =====
-- One encoding of `ioctl` commands, in which the number is the lowest byte.
use at91_sam9x25_drivers.Prelude.{◌+◌, ◌*◌, ◌%◌, arith}
use at91_sam9x25_drivers.Kernel.{Ioctls}

abbrev pub plain : Ioctls
plain = record {
  iowr = λ magic nr size. (4194304 + magic * 65536 + size) * 256 + nr;
  ioc_nr = λ cmd. cmd % 256;
  ioc_nr-iowr = λ magic nr size lt. omega arith;
  iowr-pos = λ magic nr size. omega arith;
}
