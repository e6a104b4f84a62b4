-- ===== src/Lib.antt =====
-- A verification library for the distributed query system of this repository: four programs in C,
-- which talk over sockets. Query Controls send queries to the master (master/), which gives them by
-- FIFO or by priority to workers (worker/); a worker runs the instructions of a query against a paged
-- memory, and reads and writes blocks of File:Tags at the storage (storage/). All of them use the
-- packets of utils/. What is modelled is the storage, the packets, the master, the worker, and what a
-- Query Control does with its messages.
--
-- Packets and their parts (utils/src/utils/paquetes.c, op_codes.h, set_instrucciones.h):
--   Codes          the enums that are exchanged
--   Packets        crear_paquete, agregar_a_paquete, serializar_paquete, obtener_siguiente_item
--   Packets.Receive   recibir_paquete and recv_package, from the bytes that the peer has sent
--   Packets.Laws, Packets.RoundTrip   the proofs
-- An int is the number of its 32-bit pattern, in four bytes from the lowest. The loops of
-- Packets.Receive run on fuel: the number of bytes that are left, plus one, since every round but the
-- last takes at least the four bytes of a length.
--
-- Storage (storage/src/*.c). The state `Fs` is what is on the disk (bitmap, physical blocks, for each
-- File:Tag its directory with metadata.config and the hard links of its logical blocks, the index of
-- hashes) and the table of locks. A result is `listo` with a value and the new state, `bloqueado`
-- where a semaphore would block for good, or `fallo` where the C code reads a NULL, or divides by
-- zero, or frees twice.
--   Storage.FileSystem    the calls of the operating system, and metadata.config
--   Storage.Bitmap        storage_bitmap.c
--   Storage.Hashes        storage_hashes.c
--   Storage.Locks         storage_locks.c; Storage.Locks.Start its init_locks_index
--   Storage.Files         create, truncate, write, read of sotrage_files.c
--   Storage.Commit        commit, tag, delete of sotrage_files.c
--   Storage.Server        storage_operaciones.c and storage_worker_handler.c, one message at a time
--   Storage.FreshStart    storage_fresh_start.c
--   Storage.Start         storage_init.c, with bitmap_init of storage_bitmap.c
--   Storage.Frame, Storage.Isolation, Storage.Contents and the children   the proofs
-- The operations of sotrage_files.c hold the lock of their File:Tag from end to end, so that the
-- operations on one File:Tag are modelled one behind the other. A block number, a size and an index
-- are natural numbers; the model of a C string in metadata.config is the value it is parsed to.
-- `crypto_md5` and `string_equals_ignore_case` come from another library and are parameters.
--
-- Master (master/src/*.c). The state `Master` is what its threads share. A query or a worker is found
-- by its number, as the C code finds it by its pointer; one that is freed is found no more, and its use
-- is `fallo`. A semaphore that is 0 gives `espera`. A turn of a thread between two waits is one
-- function.
--   Master.Lists, Master.Util    the lists, master_util.c and process_handler.c
--   Master.Priority              master_aging.c
--   Master.Handlers, Master.Threads    master_network_handler.c: the cases, and the threads around them
--   Master.Fifo                  the turns of all threads in any order, under FIFO, and what they reach
--   Master.Pairing, Master.Victim, Master.Worst, Master.Preempt, Master.Aging, Master.After, the children of
--   Master.Fifo    the proofs
-- A turn of Master.Fifo is one message that is handled, or one round of the scheduler, that ends; the two
-- disconnections that leave a unit in a semaphore (of a query that waits, and of a free worker) are no
-- turns of it, and Master.Fifo.Left is about them. A worker comes with a number of its own.
-- The priority of a query is an integer, as atoi gives it (Base.Ints).
-- `list_add_sorted` comes from another library: a parameter, with what the code relies on as the
-- record `ListAddSorted` of Master.Aging.
--
-- Worker (worker/src/*.c). The state `Memoria` is the globals of worker_globals.h; a pointer to a page is
-- the index of its node in `paginas`, and a node that was freed is gone; the identifier of a frame is the
-- string itself, where the C code keeps a pointer into its `file_tag`. A step of the worker changes the
-- memory, the state of the storage behind its socket, and what it told the master, and it ends as `hecho`,
-- `exit_failure` or `fallo` (a NULL, a freed node, or a division by 0 is used).
--   Worker                    the memory
--   Worker.Machine            the steps; the storage as the interface `Almacen`; `Entorno`, what is not of this program
--   Worker.Replacement, Worker.Evict      algoritmos_reemplazo.c: the choice of a victim, and what follows it
--   Worker.Tables, Worker.Frames, Worker.Pages      memoria.c
--   Worker.Interpreter        interpreter.c
--   Worker.Parser             parser.c
--   Worker.Loop, Worker.Main  the loops of main.c over the instructions of a query, and over the queries
--   Worker.Peer               the storage of Storage.Server as the `Almacen` of a worker
--   Worker.Lru, Worker.Ring, Worker.FirstPass, Worker.SecondPass, Worker.Clock, Worker.Free, Worker.Touch,
--   Worker.Access, Worker.WriteRead, Worker.Missing, Worker.TagTable, Worker.Limits,
--   Worker.Sizes, Worker.Syntax, Worker.Notify, Worker.Clean, Worker.Flushed, Worker.Started, Worker.Fault,
--   Worker.Victim, Worker.ClockVictim, Worker.Kept, Worker.Flat, Worker.FlatRead, Worker.FlatTouch,
--   Worker.FlatRest, Worker.FlatWrite, Worker.Blocks, Worker.Span, Worker.Patches, Worker.Resume,
--   Worker.Told    the proofs
-- The abstract view of the pages of a File:Tag is `aplanar`, their bytes one behind the other.
-- The `while` of algoritmo_CLOCK_M runs on a fuel of two rounds: the first takes every use bit away
-- that it comes over, and the second finds a page. All other loops are structural. A number in an
-- instruction is a natural number; the functions of strings, atoi, the clock, what a fresh allocation
-- holds, and the answers of the master are fields of `Entorno`.
--
-- Query Control (query_control/src/main.c):
--   QueryControl              recibir_mensaje and log_storage_error, on packets that are taken apart
--
-- Not modelled: configuration, logging, the freeing of memory at the end of a program, the setting up
-- of sockets and threads, and the handshakes of the worker and of the Query Control.
--
-- In Base are the shared names, Boolean tests on numbers, and lists over native numbers.
pub mod Base
pub mod Codes
pub mod Packets
pub mod Storage
pub mod Master
pub mod Worker
pub mod QueryControl
