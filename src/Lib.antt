-- ===== src/Lib.antt =====
-- memory_demo: programs that take memory in every way macOS and Windows offer, so that the figures
-- of the task manager can be watched while they hold it, and the monitors that print those figures.
--
-- The programs are straight sequences of calls to the operating system, with loops that write to the
-- memory they were given. What they have to do is to write only into memory that they hold, and to give
-- back, on every path, exactly what they took.
--
-- Os is the operating system as the programs see it. A process is state passing (Os/Process.antt): its
-- trace, the memory as a byte at each address, and the traces of the child processes that have ended.
-- What the system answers is the parameter Os: a function of the trace so far and the call; an answer
-- `none` is the failure value of the call. Os/Ledger.antt reads off a trace which resources the process
-- holds and whether it has kept the rules: IsLegal says that every byte read or written lay in memory held,
-- that only what was held was given back, and that nothing undefined was done. Os/Law.antt names the
-- documented behaviour that the programs rely on: memory handed out overlaps nothing held at its address,
-- giving back what is held succeeds (rm -rf with the exit status 0), mmap refuses 0 bytes. `Leaves base ys` says that an action has ended
-- with a legal trace, holding what was held at `base` and the resources ys besides; with ys empty, nothing
-- has leaked. Examples/Simulator.antt has a system that keeps the law.
--
-- A child process is run between fork and waitpid by `run_child`. Os/Events.antt reads the trace of an
-- action as a script of events on the memory, and Os/Schedule.antt runs two such scripts on one memory in
-- any interleaving that waitpid admits, as a step relation; Os/Reads.antt is about what the parent then
-- reads; Xnu/Sharing/Concurrent.antt puts
-- share_with_child under it.
--
-- Double.antt has the doubles that the programs compute with, as non-negative multiples of 2 ^ -128
-- rounded to 53 bits, to the nearest and ties to even; the values that occur are below 2 ^ 64, and the
-- smallest quotient that is not 0 is above 2 ^ -64, so that neither overflow nor subnormal numbers occur.
-- Decimal.antt is the "%.2f" of snprintf, as character codes, and Decimal/General.antt what a stream prints
-- for a double; Decimal/Reader.antt reads the former back.
--
-- The programs, and the files that model them:
--   macos/process/xnu_footprint_demo.cpp: print_memory_info, demo_internal_memory,
--     demo_anonymous_mapping, demo_purgeable_memory in Xnu/Memory.antt, which Xnu/Memory/Commit.antt follows
--     byte by byte; demo_memory_compression and demo_page_table in Xnu/Pressure.antt;
--     demo_file_mapped_memory in Xnu/FileMapping.antt, with create_temp_file and cleanup_temp_file in
--     Os/TempFile.antt; demo_iokit_mapping in Xnu/IoKit.antt; the child process that the shared memory
--     demonstrations have in common in Xnu/Sharing.antt; demo_anonymous_shared_memory and
--     demo_shared_memory in Xnu/Shared.antt; demo_sysv_shared_memory in Xnu/SysV.antt.
--   macos/process/file_mapping_dirty_demo.cpp: Xnu/DirtyFile.antt.
--   macos/process/mach_shared_memory_demo.cpp: Xnu/Mach.antt.
--   macos/process/shared_library_demo.cpp: SharedLibrary.antt.
--   macos/process/large_code_segment.cpp: CodeSegment.antt.
--   macos/process/data_segments_demo.cpp: DataSegments.antt.
--   macos/system/test.cc: SystemPressure.antt.
--   macos/process/memory_info.cc: MemoryInfo.antt, its two walks over the regions of a task, and
--     FormatSize.antt, its formatMemorySize.
--   windows/process/process_memory_monitor.cpp: Windows/Monitor.antt; its formatMemorySize is that of
--     FormatSize.antt.
--   windows/process/memory_metrics_demo.cpp: Windows/Metrics.antt.
--   windows/process/memory_allocation_demo.cpp: Windows/Allocation.antt.
-- The names of functions and variables are those of the source, in snake case. The page loop of nearly
-- every program is `touch` (Os/Pages.antt), the byte loop `fill` (Os/Fill.antt).
--
-- Bounds and fuel: size_t, uint64_t and SIZE_T wrap at 2 ^ 64, DWORD and natural_t at 2 ^ 32, written out
-- where they matter. `touch` has a round for each page begun and one that ends the loop, `fill` one for each
-- byte, `write_blocks` one for each block and `force_load_all_pages` one for each byte of the array, each
-- with the round that ends the loop. Rounding a double has a round for each binary digit that can be cut
-- off, printing a number one for each of its digits. The walks over regions take their fuel as an argument,
-- since the number of regions is the kernel's; the monitoring loops that never end take the list of what the
-- system answers, round by round.
--
-- Not modelled: the text of banners that are the same in every run; the Objective-C++ window programs (activity_monitor_demo.mm and the two beside it); the CMake
-- files, the scripts and the documents. What a parent sees of a child's writes through a Mach memory object
-- is a parameter of Xnu/Mach.antt, and where the loader puts the variables one of DataSegments.antt.
pub mod Base
pub mod Double
pub mod Decimal
pub mod FormatSize
pub mod DataSegments
pub mod Os
pub mod Xnu
pub mod SharedLibrary
pub mod SystemPressure
pub mod CodeSegment
pub mod Windows
pub mod MemoryInfo
pub mod Examples
