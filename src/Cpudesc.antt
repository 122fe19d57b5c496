-- ===== src/Cpudesc.antt =====
-- lib/cpudesc.c: the description of the processors, from /proc/cpuinfo. The mode has the default of
-- the platforms with a flag for 64 bits, which x86_64 is.
pub mod Words
use nagios_plugins_linux.Base.{
  ℕ, Bool, true, false, ◌||◌, [], ◌∷◌, ◌++◌, List, Option, none, some, Bytes, codes, streq,
  starts_with, if◌then◌else◌,
}
use nagios_plugins_linux.Base.Int.{ℤ, pos, negsuc, ◌-ℤ◌, ltb_ℤ, to_int}
use nagios_plugins_linux.Messages.{state_unknown, Outcome, returns, plugin_error}
use nagios_plugins_linux.Procparser.{linelookup}

-- `int mode`, without or with MODE_64BIT beside MODE_32BIT
pub data Mode : Type 0 where
  no_mode mode_32bit mode_both : Mode

-- `struct cpu_desc`
pub record CpuDesc : Type 0 where
  pub refcount : ℤ
  pub arch : Option Bytes
  pub vendor : Option Bytes
  pub family : Option Bytes
  pub model : Option Bytes
  pub modelname : Option Bytes
  pub virtflag : Option Bytes
  pub mhz : Option Bytes
  pub flags : Option Bytes
  pub mode : Mode
  pub ncpus : ℤ
  pub ncpuspos : ℤ

-- The return value, 0 or -ENOMEM, and the object, `none` if it is not allocated.
unfoldable pub cpu_desc_new : Bool → ℤ × Option CpuDesc
cpu_desc_new allocated =
    if allocated
    then (
      pos 0,
      some (record {
        refcount = pos 1;
        arch = none;
        vendor = none;
        family = none;
        model = none;
        modelname = none;
        virtflag = none;
        mhz = none;
        flags = none;
        mode = no_mode;
        ncpus = pos 0;
        ncpuspos = pos 0;
      }),
    )
    else (negsuc 11, none)

-- `if (linelookup (line, pattern, &field)); else …`: the description with the field stored, or what
-- the rest makes of the line.
abbrev stored : Option (Bytes × Bytes) → (Bytes → CpuDesc) → CpuDesc → CpuDesc
stored none store otherwise = otherwise
stored (some (line, value)) store otherwise = store value

unfoldable pub read_line : Bytes → CpuDesc → CpuDesc
unfolding linelookup
read_line line d =
    stored (linelookup line (codes "vendor")) (λ v. record d { vendor = some v })
      (stored (linelookup line (codes "vendor_id")) (λ v. record d { vendor = some v })
        (stored (linelookup line (codes "family")) (λ v. record d { family = some v })
          (stored (linelookup line (codes "cpu family")) (λ v. record d { family = some v })
            (stored (linelookup line (codes "model")) (λ v. record d { model = some v })
              (stored (linelookup line (codes "model name")) (λ v. record d { modelname = some v })
                (stored (linelookup line (codes "cpu MHz")) (λ v. record d { mhz = some v })
                  (stored (linelookup line (codes "flags")) (λ v. record d { flags = some v })
                    d)))))))

unfoldable pub read_lines : List Bytes → CpuDesc → CpuDesc
unfolding read_line
read_lines [] d = d
read_lines (line ∷ lines) d = read_lines lines (read_line line d)

-- `strstr (s, pattern) != NULL`
abbrev pub strstr : Bytes → Bytes → Bool
strstr pattern [] = streq pattern []
strstr pattern (c ∷ cs) = starts_with pattern (c ∷ cs) || strstr pattern cs

-- The test for a flag: `snprintf (buf, buflen, " %s ", flags)` with a buffer of `strlen (flags) + 2`
-- bytes keeps the space in front of the text and cuts off the one behind it.
unfoldable pub has_flag : Bytes → Bytes → Bool
has_flag flags name = strstr (b' ' ∷ name ++ b' ' ∷ []) (b' ' ∷ flags)

-- From `if (cpudesc->flags)` on.
unfoldable pub read_flags : Option Bytes → CpuDesc → CpuDesc
unfolding has_flag
read_flags none d = d
read_flags (some flags) d = record d {
  virtflag =
      if has_flag flags (codes "svm")
      then some (codes "svm")
      else if has_flag flags (codes "vmx")
      then some (codes "vmx")
      else d.virtflag;
  mode =
      if has_flag flags (codes "lm")
        || has_flag flags (codes "zarch")
        || has_flag flags (codes "sun4v")
        || has_flag flags (codes "sun4u")
      then mode_both
      else d.mode;
}

with_flags : CpuDesc → CpuDesc
unfolding read_flags
with_flags d = read_flags d.flags d

-- `cpuinfo` is the file, `machine` what `uname` says, and the last two are the numbers of processors.
unfoldable pub cpu_desc_read :
    Option (List Bytes) → Option Bytes → ℤ → ℤ → Option CpuDesc → Outcome (Option CpuDesc)
unfolding read_lines with_flags
cpu_desc_read cpuinfo machine total kernel_max none = returns none
cpu_desc_read none machine total kernel_max (some d) = plugin_error state_unknown
cpu_desc_read (some lines) none total kernel_max (some d) = plugin_error state_unknown
cpu_desc_read (some lines) (some machine) total kernel_max (some d) = returns (
    some (
      with_flags (
        read_lines lines (record d {
          arch = some machine;
          ncpus = total;
          ncpuspos = kernel_max;
          mode = mode_32bit;
        }))))

-- `none` is the null pointer, or an object that was freed.
unfoldable pub cpu_desc_unref : Option CpuDesc → Option CpuDesc
unfolding ◌-ℤ◌
cpu_desc_unref none = none
cpu_desc_unref (some d) =
    if ltb_ℤ (pos 0) (d.refcount -ℤ pos 1)
    then some (record d { refcount = d.refcount -ℤ pos 1 })
    else none

virtualization : Option Bytes → Option Bytes
virtualization none = none
virtualization (some flag) =
    if streq flag (codes "svm")
    then some (codes "AMD-V")
    else if streq flag (codes "vmx")
    then some (codes "VT-x")
    else some flag

unfoldable pub cpu_desc_get_virtualization_flag : CpuDesc → Option Bytes
unfolding virtualization
cpu_desc_get_virtualization_flag d = virtualization d.virtflag

-- `path_exist`, and what `sysfsparser_getvalue` stores.
unfoldable pub get_processor_is_online : Bool → ℕ → ℤ
unfolding to_int
get_processor_is_online path_exist value = if path_exist then to_int value else negsuc 0
