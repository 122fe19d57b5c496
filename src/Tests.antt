-- ===== src/Tests.antt =====
-- Tests of the definitions on concrete inputs, and the theorems applied to such inputs.
mod Decisions
mod Programs
mod Multipath
mod Thresholds
mod Numbers
mod Tables
mod Memory
mod FileTree
mod Counters
mod Cpu
mod Sockets
mod Processes
mod Mounts
mod Interfaces
mod Shares
mod Sensors
mod Containers
mod Frequencies
mod Percentages
use nagios_plugins_linux.Base.{Bytes}
use nagios_plugins_linux.Base.Int.{ℤ, pos_part, leb_ℤ, ltb_ℤ, ◌*ℤ◌, ◌/ℤ◌}
use nagios_plugins_linux.Base.Numeral.{Number, strtol}
use nagios_plugins_linux.Base.Double.{Double, Scan}

-- Whole numbers in the place of `double`: a text is read as `strtol` reads it.
abbrev whole_strtod : Bytes → Scan ℤ
whole_strtod s = record {
  value = (strtol s).value;
  used = (strtol s).used;
  failed = (strtol s).failed;
}

abbrev whole : Double
whole = record {
  D = ℤ;
  le = leb_ℤ;
  lt = ltb_ℤ;
  of_ℤ = λ z. z;
  mul = ◌*ℤ◌;
  div = ◌/ℤ◌;
  to_u64 = pos_part;
  to_i64 = λ z. z;
  strtod = whole_strtod;
}
