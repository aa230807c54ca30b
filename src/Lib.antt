-- ===== src/Lib.antt =====
-- A model of the router programs of VT_Mechanisms, which forward packets between the interfaces of
-- an emulated switch. In router_app_vt the forwarding thread lives in virtual time: `main` asks
-- the TimeKeeper module of the kernel for the length of each round, hands it to the thread over a
-- pipe, and the thread counts it down by a fixed cost for every function that it calls. router_n
-- forwards without that.
--
-- Hash has the hashes and comparers of src/routing/utils/hashmap.c; what an `int` pointer points
-- to and `strcmp` are arguments there.
--
-- LinkedList (src/routing/utils/linkedlist.c and .h) and HashMap (src/routing/utils/hashmap.c and
-- .h) work on the C heap of Heap: addresses are numbers, a run ends normally, in undefined
-- behaviour or with its fuel spent, and an allocation is an argument, the address that `malloc`
-- returns. A structure that the C code changes through a pointer is a value that the operation
-- returns. The functions keep their names. A loop that follows `next` has one round of fuel more
-- than the list has nodes, which is enough for every list that IsList describes. Word has the
-- wrap-around of C's `int`.
--
-- Decimal and Command (str_to_i of src/routing/utils.c, and the parser of
-- src/routing/router_app_vt.c) read the texts of the kernel module. A buffer is a list of bytes,
-- and a read outside it is `none`. The loop over the tuples has as much fuel as the buffer has
-- bytes, and two rounds more: each round but the last moves to a later byte before the NUL.
--
-- Stub (pipe_send, pipe_read, update_stub, update_stub_blocking and init_func_times of
-- src/routing/utils.c) is the thread's side of a round. Rounds is a step relation for `main` of
-- src/routing/router_app_vt.c and the thread: each step is one access to a pipe or to a field of
-- `thread_args`, or a system call that fails and ends the thread, and steps of the two sides come
-- in any order. RouterThread is the body of process_thread of src/routing/utils.c, with what the
-- other side sends as its input: one turn for each call of update_stub and each blocking read.
-- RouterThread/Turns, Play, Refines and Whole follow it through the steps of Rounds, and
-- RouterThread/Enough counts the turns that it takes. MainLoop is the loop of `main` in the same
-- way, with a turn for each round; a turn has the kernel's answer, the flag and the thread's text. Both keep a
-- list of what they do to the pipes and flags; Joint runs the two lists over one store, in any order of
-- their entries. A read of a pipe by the thread and the test of `arg->stop` behind it are one entry,
-- and one step of Rounds.
--
-- Routes (src/routing/utils.c) has the file of routes, the table, which is a LinkedList, and the
-- lookup of a packet's interface. Router (src/routing/router_n.c) has the command line, the names
-- of the interfaces and the loop that forwards packets, Router/Setup the way from the command line
-- to the loop; the lookup is an argument there and in RouterThread. PktInfo
-- (src/routing/pkt_info.c) has the counters and the hex dump, PktInfo/Print and PktInfo/Packets
-- the texts of headers and packets.
--
-- Traffic (src/routing/test/client_n_vt.c and src/routing/test/server_n_vt.c) has the threads of
-- the traffic programs, which use the stub, the pipes and the loop of `main` as the router does.
--
-- Results (src/routing/router_app_vt.c) has write_results, by what its calls of `write` return.
-- Sending (src/routing/utils.c) has send_packet, cread and read_n, which take the results of their
-- system calls; Start (src/routing/router_app_vt.c) the thread's arguments and the spinner.
-- Start/Prepare goes from the command line through the table of routes and the table of costs to the
-- head of the loop of `main`, and has its end, less the loop that frees the names.
--
-- Sockets (src/routing/utils.c) has the functions that open, set up and close descriptors. The
-- kernel is an argument that answers each call by the calls before it, and a result comes with the
-- calls that were made.
--
-- Not modelled: the calls of the TimeKeeper library and of pthread, a failing write or read of a pipe,
-- which ends the process, debugging texts, the traffic
-- generators of src/routing/test that do without virtual time and the statistics of the others,
-- the vendored src/routing/simpletun, and the Python scripts of src/mininet.
pub mod Prelude
pub mod Heap
pub mod LinkedList
pub mod Word
pub mod Hash
pub mod HashMap
pub mod Decimal
pub mod Command
pub mod Stub
pub mod Rounds
pub mod Routes
pub mod Router
pub mod RouterThread
pub mod PktInfo
pub mod Sending
pub mod Start
pub mod Sockets
pub mod Results
pub mod Tests
pub mod MainLoop
pub mod Joint
pub mod Traffic
