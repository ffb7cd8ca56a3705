-- ===== src/Kernel/Misc.antt =====
-- The registration of a driver that is one miscellaneous device.
use at91_sam9x25_drivers.Prelude.{Bool, true, false, Option, none, some, if◌then◌else◌}
use at91_sam9x25_drivers.Kernel.{Ret, val, is_nonzero}

-- `misc_register` and the return of its error, from what it gives: the result, and whether the device
-- is registered then.
abbrev pub misc_register : Ret → Ret × Bool
misc_register ret = if is_nonzero ret then (ret, false) else (val 0, true)

-- `misc_deregister`: that of a device that is not registered is a fault, `none`.
abbrev pub misc_deregister : (registered : Bool) → Option Bool
misc_deregister true = some false
misc_deregister false = none
