-- ===== src/Lib.antt =====
-- The cloning applications: small servers and benchmarks for unikernels that are cloned or forked,
-- with the layer over sockets, clocks, memory and threads that they share (C).
--
-- The parts of the program, and the files that model them:
--   System.antt       the machine: calls, their answers, traces, the state and the four ends of a run
--   Globals.antt      `enum app` (apps.h) and the global variables (main.c, common/mem.c)
--   Net.antt          common/net.c, with the UDP functions in Net/Datagram.antt; Net/Os.antt has
--                     os/posix/net*.c and os/minios/net.c
--   Time.antt         common/time.c, os/posix/time.c, os/minios/time.c
--   Clone.antt        os/posix/clone_posix.c, os/posix/clone_unikraft.c, os/minios/clone.c
--   Prologue.antt     server-common.c, which the servers call first
--   Servers.antt      server-tcp.c, counter.c, children.c, server-udp.c, sleeper.c
--   Memory.antt       common/mem.c; Memory/Alloc.antt has os/posix/mem_*.c and os/minios/mem.c
--   Cmdline.antt      `cmdline_tokenize` of os/minios/cmdline.c and `string_to_app` of main.c; the two
--                     `os_parse_args` are in Cmdline/MiniOs.antt and Cmdline/Posix.antt
--   Files.antt        files.c
--   Benchmarks.antt   measure-fork.c, memory-overhead.c
--   Fuzz.antt         fuzz.c
--   Threads.antt      os/posix/thread.c, os/minios/thread.c
--   Boot.antt         os/posix/boot.c, os/minios/boot.c
--   Main.antt         `main` of main.c, os/minios/main.c
--   PosixServer.antt  posix-server.c
--   Profile.antt      common/profile.h, for a build that measures
-- The other files below each of them hold the theorems and what these compare the code with:
-- Servers/Session.antt is the protocol of a TCP server, as a step relation on the phases of a
-- connection; Time/StopAndWait.antt is that of a report by `send_time`; Servers/Contract.antt is
-- the interface between common/net.c and the servers, an account of the states between its calls,
-- which Servers/Contract/ fills with the books of descriptors and buffers and with the protocol,
-- and over which the loops of server-tcp.c, files.c, measure-fork.c and
-- memory-overhead.c are followed; Servers/Udp.antt says which datagrams come from a new client;
-- Cmdline/Settings.antt has what a command line asks for, apart from how it is written. Base.antt
-- has what all share, and Tests.antt the machines and inputs on which the theorems are tried.
--
-- How the parts interact: `main` reads the command line into the globals and runs one application.
-- The TCP servers call `server_prologue`, which reports the boot time over UDP and forks or clones,
-- and then serve a port through common/net.c. All of them call the operating system, and a function
-- here is a command: from a state it makes a run, which returns, exits, makes a fault or is
-- stopped.
--
-- The operating system, the C library and the hypervisor are not part of the sources. They are the
-- parameter `Env`: it answers each call as it likes, knowing all earlier calls, and says which
-- build it is (POSIX, Unikraft, Mini-OS), which applications it includes, and what unassigned
-- variables hold. The state has the trace of all calls, the globals and the memory that
-- `mem_touch_pages` writes. What a run acquires and gives back is read off its trace
-- (System/Ledger.antt). Theorems that need more of a call take it as a hypothesis: `SocketCalls`
-- for sockets, `WriteCalls` for `write`, `WholeWords` for writes of a word, `ClockWorks` for
-- `gettimeofday`, `Has` for the blocks of the page allocator, `PageSize` for the size of a page,
-- `ShortDatagrams` for what comes to posix-server.c, `Silent` and `SilentDatagrams` for a network
-- on which nothing comes any more.
--
-- A pointer to a structure is the structure, handed back with the result, and NULL is `none`. A
-- fault stands for what C leaves undefined and for a failed `assert`.
--
-- Bounds and fuel: an `unsigned long` has 64 bits, with its wrap-around written out. The loops of
-- the servers run until a call fails, so they take fuel, and what is said of them is said for every
-- amount of it; how much is enough once the network falls silent is a matter of the modules named
-- Halting. The loops over a number or a text are structural. `write_words` has a round for each
-- byte and one more, each of which counts eight bytes; the Mini-OS `os_parse_args` has one for each
-- argument and one more, each of which goes on by one or two arguments; for `write_buffer` and for
-- the search for the largest block enough fuel is a hypothesis.
--
-- Not modelled: printing, except the line for a new client of the UDP server, the durations of
-- memory-overhead.c and the lines of common/profile.h; the lines that a build with profiling prints
-- in files.c and measure-fork.c; the arithmetic of the C type `double` and its texts, which are the
-- parameter `Double` of Profile.antt; the declarations of the other headers; `getopt_long`, whose
-- results are an argument (`long_opts` is its table of options); access violations, as the memory is a
-- total map, so a store to an address that no call handed out succeeds; `os_get_page_size`, which is a call; the build files. Processes made by
-- `fork` or `clone` are the answers that the call can give: a run follows one of them.
mod Base
mod Tests
pub mod Globals
pub mod System
pub mod Net
pub mod Time
pub mod Clone
pub mod Prologue
pub mod Servers
pub mod Memory
pub mod Cmdline
pub mod Files
pub mod Benchmarks
pub mod Boot
pub mod Fuzz
pub mod Threads
pub mod Main
pub mod PosixServer
pub mod Profile
