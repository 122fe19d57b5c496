-- ===== src/Lib.antt =====
-- The plugins of this repository are small programs, one for each figure of a Linux system, that
-- print a line and exit with a state of Nagios. Each is a thin command line program (plugins/) over a
-- library (lib/, include/): a plugin reads a figure through the library, compares it with the warning
-- and critical ranges of its arguments (lib/thresholds.c), prints it with limits (lib/perfdata.c) and
-- returns the state. This library models those parts, from the C sources.
--
-- Base            names, lists, C strings (Base/CString), words that wrap (Base/Words), integers,
--                 strtol and strtoul (Base/Numeral), and the operations on double as a record of
--                 parameters (Base/Double)
-- Program         what the programs of plugins/ do alike: options, thresholds, delay and count, and two
--                 readings in turn
-- Messages        include/common.h, lib/messages.c: the states, and plugin_error, which ends the
--                 process: Outcome is what a call that may do so leaves; Messages.Worst is the loop
--                 of the programs that keeps the worst state
-- Thresholds      lib/thresholds.c, include/thresholds.h: ranges, their text, and the state
-- Perfdata        lib/perfdata.c, include/units.h: limits and units
-- Xstrton         lib/xstrton.c: ages and sizes with a suffix, strict whole numbers
-- Collection      lib/collection.c: the hash table that counts keys
-- UrlEncode       lib/url_encode.c
-- Procparser      lib/procparser.c: procparser, over a table whose slots are writes into a structure;
--                 and linelookup
-- Meminfo         lib/meminfo.c: /proc/meminfo, through Procparser
-- Memory          plugins/check_memory.c: the whole run over Meminfo, Thresholds and Perfdata
-- Swap            plugins/check_swap.c: the whole run over Meminfo, Vminfo, Thresholds and Perfdata
-- Vminfo          lib/vminfo.c: /proc/vmstat, through Procparser, and /proc/stat
-- Paging          plugins/check_paging.c: the growth of the counters of Vminfo, and the status
-- Uptime          plugins/check_uptime.c: the whole run, from a clock to the state and the text
-- Clock           plugins/check_clock.c: the whole run, from the text of the clock to the state
-- Multipath       plugins/check_multipath.c: the dialogue with multipathd; Multipath.Dialogue is over
--                 calls of read and write that are interrupted or move a part
-- Tcpinfo         lib/tcpinfo.c: sockets by state; Tcpinfo.Tcpcount is plugins/check_tcpcount.c
-- Pressure        lib/pressure.c: pressure-stall information of two moments; Pressure.Starved is
--                 plugins/check_pressure.c
-- Processes       lib/processes.c, include/processes.h: processes by user; Processes.Nbprocs is
--                 plugins/check_nbprocs.c
-- Cpustats        lib/cpustats.c: the processor times and counters of /proc/stat
-- Cpu             plugins/check_cpu.c: the options, the shares between two readings of Cpustats, the
--                 status, and the whole run (Cpu.Whole)
-- Cswch           plugins/check_cswch.c, over Cpustats
-- Cpudesc         lib/cpudesc.c: /proc/cpuinfo, through Procparser.linelookup
-- Sysfs           lib/sysfsparser.c: single values, frequencies and thermal zones; a file is named by
--                 the numbers in its path
-- Temperature     plugins/check_temperature.c, over Sysfs
-- Fc              plugins/check_fc.c, over Sysfs
-- Users           plugins/check_users.c
-- Cpufreq         lib/cpufreq.c: the texts of frequencies and durations; Cpufreq.Monitor is
--                 plugins/check_cpufreq.c, over Sysfs
-- Cputopology     lib/cputopology.c: the masks of processors, through Sysfs
-- Interrupts      lib/interrupts.c: /proc/interrupts
-- Intr            plugins/check_intr.c, over Cpustats and Interrupts
-- Mountlist       lib/mountlist.c; Mountlist.Readonly is plugins/check_readonlyfs.c and
--                 Mountlist.Unmounted is plugins/check_ifmountfs.c
-- Netinfo         lib/netinfo.c: the rates of two snapshots; Netinfo.Snapshot is
--                 lib/netinfo-private.c
-- Network         plugins/check_network.c: options and thresholds over Netinfo
-- Container       lib/container.c, lib/json_helpers.c: containers by image, over Collection;
--                 Container.Usage is plugins/check_container.c, with the requests of lib/container.c
-- Load            plugins/check_load.c: the state of the load averages; Load.Averages is the program
-- Files           lib/files.c: the files below a directory; Files.Filecount is plugins/check_filecount.c
-- Tests           runs on concrete inputs
--
-- A function of the source has its own name here. A file is the list of the lines that getline
-- returns, or none where it cannot be opened; a text is the list of its bytes, without the NUL. A
-- directory tree is what opendir, readdir and lstat report of it (Files.Contents). State is passed
-- from call to call; a pointer that the source may leave alone or null is an Option. An unsigned
-- integer wraps at its width, which is written out; long and unsigned long have 64 bits. Loops are
-- recursion on the lines, the chain, the bytes or the tree; those that read anew, on the readings that
-- are left, and those over read and write, on what the calls come back with. So no fuel is used.
--
-- Parameters stand for what is not in the repository: double and strtod (Base/Double), bsearch
-- (Procparser.Bsearch, with its documented result on a sorted table only), fnmatch, sscanf, getpwuid,
-- getrlimit, hasmntopt, regexec, getutxent, getloadavg, libcurl, the ioctls of an
-- interface, strtoull with base 0, the arithmetic of float, the clock, the JSON tokenizer, and the bytes in memory behind a text. Files and netlink replies are arguments. A program
-- takes the options as getopt_long returns them. malloc and calloc may fail where the source looks at
-- it; xmalloc ends the process, and is taken to succeed. What C leaves undefined, such as a read behind
-- a text or of a null pointer, is a result of its own where the code can come to it.
--
-- Not modelled: output and debug messages; plugins/check_selinux.c; lib/meminfo_procps.c and
-- lib/vminfo_procps.c, which call libproc; lib/kernelver.c, lib/progname.c and lib/npl_selinux.c,
-- which call the system; the callback of libcurl in lib/container.c; include/jsmn.h, which is third-party.
mod Base
pub mod Messages
pub mod Thresholds
pub mod Perfdata
pub mod Xstrton
pub mod Collection
pub mod UrlEncode
pub mod Procparser
pub mod Meminfo
pub mod Memory
pub mod Swap
pub mod Vminfo
pub mod Paging
pub mod Uptime
pub mod Clock
pub mod Multipath
pub mod Program
pub mod Cswch
pub mod Intr
pub mod Fc
pub mod Users
pub mod Temperature
pub mod Tcpinfo
pub mod Pressure
pub mod Processes
pub mod Cpustats
pub mod Cpu
pub mod Cpudesc
pub mod Sysfs
pub mod Cpufreq
pub mod Cputopology
pub mod Interrupts
pub mod Mountlist
pub mod Netinfo
pub mod Network
pub mod Container
pub mod Load
pub mod Files
mod Tests
