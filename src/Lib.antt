-- ===== src/Lib.antt =====
-- nx-c-util, a C library for embedded firmware: containers and primitives (src/core), algorithms
-- (src/algo), and protocol middleware (src/middleware) that is built on them.
--
-- Which file models which part:
--   Base        what the parts share: numbers and their tests, C arrays as lists (Lists), words with
--               their wrap-around (Words), positions on a ring (Positions), bit operations (Bits)
--   Core.RingBuf     src/core/nx_ringbuf.h and .c, the byte ring; RingBuf/Refine holds its specification
--   Core.Queue       src/core/nx_queue.h and .c, the queue of fixed-size elements; Queue/Refine likewise
--   Core.IntrusiveList  src/core/nx_list.h, the doubly linked list through its nodes' links, in a memory
--               by address; Refine relates it to a list of nodes
--   Core.Timer       src/core/nx_timer.h and .c, software timers on such a list; Sweep what one call does
--   Core.Bytes       src/core/nx_bytes.h, words in both byte orders
--   Core.EventFlags  src/core/nx_event_flags.h, a word of flags
--   Algo.Crc         src/algo/nx_crc.h and .c, the CRC of any width, with its named variants
--   Middleware.ModbusRtu    src/middleware/nx_modbus_rtu.c, the CRC of a frame by table
--   Middleware.Uds       src/middleware/nx_uds.h, the transaction that a service handler sees
--   Middleware.UdsSvcSec    src/middleware/nx_uds_svc_sec.h and .c, the seed/key exchange of the service 0x27
--   Middleware.UdsSvcTransfer    src/middleware/nx_uds_svc_transfer.h and .c, the memory transfer services 0x34
--               to 0x37; Block.Memory relates them to the memory behind the callbacks
--   Middleware.UdsServer    src/middleware/nx_uds_server.h and .c, the diagnostic server: its session and quiet
--               timer, Table the services, Instance the transaction, Process what drives it on, Indicate the
--               dispatch of requests; Sound what a transaction keeps to
--   Middleware.UdsSvcSession    src/middleware/nx_uds_svc_session.h and .c, the services 0x10, 0x11 and 0x3E;
--               Acting runs a request and the phase after it on the server's session, Served the exchange
--               with a server that has the service in its table
--   Middleware.CanBus    src/middleware/nx_can_bus.h, the lengths of CAN frames
--   Middleware.CanIsotp    src/middleware/nx_can_isotp.h and .c and nx_tp_sdu.h, the ISO-TP transport:
--               Emit the frames, Receive and Send its two halves, Process the public functions;
--               Reassembly takes the frames of a message through the receiver
--
-- A function `nx_<module>_<operation>` is the definition `<operation>` of that module. A handle that
-- the C code changes through a pointer is a record that goes in and comes back. A pointer argument
-- that may be NULL is an `Option`; an out argument is given by whether it is there, and what is
-- written to it is returned. A handle that is NULL is not represented: such a call returns at once.
-- Memory behind a pointer is the list of its bytes; reading and copying stop at its end, and the
-- theorems ask for buffers of the declared size. Integers are natural numbers with the wrap-around
-- of their C type written out; `size_t` is 32 bits wide, as on the targets of the library. A function
-- pointer of the caller is a parameter: the clock and the callbacks of the seed/key exchange are given at
-- each request (UdsSvcSec.Env), and what it calls them for is in its outcome (UdsSvcSec.Outcome). Loops
-- are structural recursion on their data or on their number of rounds, so there is no fuel, but for
-- the loops over links (IntrusiveList, Timer), which have a number of steps: one more than there are
-- nodes is enough. In CanIsotp the pool and the clock are functions that count their calls, and a
-- queue of messages is a bounded list of them.
--
-- In UdsServer the clock counts its readings too, and a call of a handler reads it once; what the
-- handlers, the carrier and the application keep is one value.
--
-- Interfaces: a service of UdsServer.Table has a `Handler`, which UdsSvcSession.control is.
-- Middleware.ModbusRtu and Algo.Crc compute the same CRC in two ways and are related by
-- Middleware.ModbusRtu.Equivalence.
--
-- Not modelled: the lock hooks (a call is one step here), logging, the coroutine macros, the device
-- drivers, the memory pools and reference-counted messages, SHA-256, the Modbus master and slave, the
-- diagnostic client.
pub mod Base
pub mod Core
pub mod Algo
pub mod Middleware
