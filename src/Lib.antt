-- ===== src/Lib.antt =====
-- Verification of flutter-libnx, the embedder that runs Flutter applications on the Horizon system.
--
-- The parts, and how they interact
-- The engine calls the embedder on platform channels, posts tasks to it, and reaches the C library
-- through its POSIX layer. The handlers of the plugin channels read and write messages with the
-- standard codec and keep their entries in files; the main loop runs the posted tasks; every open,
-- read and close of the process, those of the Dart VM included, goes through the handle tables of the
-- POSIX layer.
--
-- Codec: embedder/src/engine/standard_message_codec.cpp with its header. StdValue is the struct of
-- the same name, as the payload of its tag; Codec/Encode.antt has WriteSize, AlignTo and
-- EncodeStdValue, Codec/Decode.antt has ReadSize, SkipAlignment and DecodeStdValue, and
-- Codec/Call.antt DecodeStdMethodCall, EncodeStdSuccess and EncodeStdError. An int64_t and a double
-- are their 64-bit patterns, a byte is a number below 256. A decoder's result is a value with the
-- cursor behind it, `rejected` for the result false, `fault` for a read outside the buffer, and
-- `stuck` for a recursion that ran out of its bound. The bound of DecodeStdValue's recursion is the
-- length of the buffer plus one, since each level reads at least one byte; the loops of AlignTo and
-- SkipAlignment get as many rounds as the alignment. reserve(count) is taken to
-- succeed.
--
-- Plugins: embedder/src/engine/plugins_horizon.cpp. Plugins/Disk.antt is the file system, a
-- parameter with the laws that ISO C and POSIX state; Plugins/Table.antt has MapGet, MapSet and the
-- loops of `remove` and `clear`; Plugins/Storage.antt EnsureDir and the pairs LoadPrefs/LoadSecure
-- and SavePrefs/SaveSecure, which differ in the file only; Plugins/Handlers.antt and
-- Plugins/Dispatch.antt the handlers and flutter_libnx_handle_plugin_message, Plugins/FilePicker.antt
-- HandleFilePicker over the directory of imports, a parameter. The globals g_prefs
-- and g_secure, the world below, and the responses sent are the fields of the record Plugins.
--
-- Tasks: embedder/src/engine/task_runner.cpp with its header. Tasks/Runner.antt has the operations of
-- TaskRunner; the engine's clock and FlutterEngineRunTask are a parameter, and what a running task
-- or another thread posts meanwhile is part of what that call gives back. The queue is touched under the
-- mutex only, so a run of the program is a sequence of operations (Tasks/History.antt).
--
-- Posix: embedder/src/platform/posix_compat_horizon.cpp. Posix/Directories.antt has the directory
-- handles, IsAbsolutePath and JoinPath; Posix/Files.antt BaseFile, VirtualFile, FileState and
-- __wrap_open; Posix/Access.antt ResolveAt and the wrappers of write, lseek, ftruncate, read, close
-- and dup; Posix/At.antt openat and the other functions that take a directory handle, and pread, which
-- call those wrappers; Posix/Status.antt the wrappers of stat, fstat, fsync and fcntl, sysconf and the
-- counters. The C library below is a parameter. The tables have the sizes of the program, 64 and 128.
-- A descriptor is a number from 0 on and off_t an integer without bounds; an errno that the C
-- library sets is the constructor real_error.
--
-- TextInput: embedder/src/engine/textinput_horizon.cpp. TextInput/Utf8.antt has AppendUtf8 and
-- Utf16Length; TextInput/Json.antt JsonEscape, ExtractJsonString and ExtractJsonNumber;
-- TextInput/Handler.antt the globals, as a record, and flutter_libnx_handle_textinput. The keyboard
-- of the system and snprintf, strtoul and atoi are parameters. The loop of ExtractJsonString gets one
-- round more than the text is long, since each round reads a character at least.
--
-- Libraries: embedder/src/engine/static_libraries_horizon.cpp. Libraries/Table.antt has the tables and
-- the binary search of a sorted one, Libraries/Resolve.antt the handles, dl_open and
-- dl_sym. A table is a list of names with addresses, its bounds are counted from 0, and `end` is the
-- source's `hi` plus one, so that it is never negative. The search gets one round more than the table
-- is long, since each round leaves a shorter range.
--
-- EventHandler: patches/flutter-engine/files/dart/bin/eventhandler_horizon.cc with its header.
-- EventHandler/Loopback.antt has CreateLoopbackPair, EventHandler/Handler.antt the messages, the
-- queue and the descriptors' map, EventHandler/Messages.antt HandleInterruptQueue and what it calls,
-- EventHandler/Poll.antt the loop around poll. The sockets, the clock and the parts of the Dart VM
-- that the file calls (DescriptorInfo, the timeout queue, the ports) are the record Dart and further
-- parameters; the loop's rounds are a list of what poll reports in each.
--
-- HeapGuard: embedder/src/platform/heap_guard_horizon.cpp. HeapGuard/Memory.antt is the memory, a
-- function from addresses to bytes, with little-endian words; HeapGuard/Wrappers.antt has the header,
-- GuardIntact, Report and the wrappers of malloc, free, memalign, calloc and realloc. The allocator
-- below is a parameter and keeps its state in the memory. A size wraps around at 2^64; an address
-- is a number, and the sum of an address and a size does not wrap.
--
-- HeapLayout: embedder/src/platform/heap_layout_horizon.cpp. HeapLayout/Layout.antt has
-- __libnx_initheap. The loader's heap, the answers of svcGetInfo and svcSetHeapSize are parameters, and
-- a u64 wraps around at 2^64.
--
-- Video: embedder/src/engine/media_kit_video_horizon.cpp. Video/Outputs.antt has the outputs and the
-- operations on one output and on GL; Video/Frame.antt the globals, as the record Video, the frame
-- callback, the tasks of the raster thread, mpv's callback, the pump and the shutdown; and
-- Video/Channel.antt the channel's methods. A pointer to an output is its texture id; `fault` says that
-- one was used whose output is gone. What runs under the mutex is one step, the platform thread's wait
-- in Dispose gets the steps that the other threads do until it ends, and Video/Reach.antt is the relation of
-- all steps. What EGL, GL and mpv answer is the record Answers; GlFunctions::Load is one of these
-- answers, and the pixel probe and the counters for the log are left out.
--
-- Log: embedder/src/log.cpp. Log/Sinks.antt has EnsureSocket, ConnectWithTimeout and MakeParentDirs,
-- Log/Lines.antt LogWrite with its loop around send, LogInit, LogShutdown and flutter_libnx_vm_log. The
-- sockets, the files and snprintf are a parameter; the record counts the sockets and the sessions of the
-- service that were opened and closed. The loop of LogWrite gets the length of the line as its fuel, since
-- each call of send takes a byte at least or ends it.
--
-- ThreadDiag: embedder/src/platform/thread_diag_horizon.cpp. ThreadDiag/Pages.antt has
-- flutter_libnx_scan_heap and flutter_libnx_heal_heap over a kernel that answers svcQueryMemory and
-- svcUnmapMemory as it likes. A walk over the addresses below `end` gets `end` plus one rounds, since
-- each round goes on to a higher address or gives up; counts are numbers without bounds.
--
-- Random: embedder/src/platform/random_horizon.cpp. Random/Generator.antt has EnsureCsrng,
-- _getentropy_r and flutter_libnx_random_cleanup over the service, a parameter.
--
-- VirtualMemory: patches/flutter-engine/files/dart/vm/virtual_memory_horizon.cc.
-- VirtualMemory/Guards.antt has the guards, the list of live blocks with its sweeps, AllocateAligned and
-- the destructor, over the memory of HeapGuard and an allocator, a parameter that keeps its own data
-- apart. A size and a guard together do not reach 2^63.
--
-- Prelude.antt passes on the library's names and those of its children: Boolean tests on numbers, lists
-- measured by native numbers, bytes and words, strings as lists of bytes, and integers.
--
-- Not modelled
-- Of the POSIX layer the stubs that only return an error or a constant; of the thread diagnostics the
-- repeated calls of a failed pthread_create; the surface, and of patches/ the files other than these
-- two. Other parts only call the system, or are scripts, examples and copies of other projects' libraries.
pub mod Prelude
pub mod Codec
pub mod Plugins
pub mod Tasks
pub mod Posix
pub mod TextInput
pub mod VirtualMemory
pub mod Log
pub mod Random
pub mod ThreadDiag
pub mod Video
pub mod Libraries
pub mod EventHandler
pub mod HeapGuard
pub mod HeapLayout
