-- ===== src/Lib.antt =====
-- The Data Dump Protocol: a server that holds data sends it, on request, to a client, cut into
-- numbered blocks, over a transport that the application supplies as callbacks.
--
-- The parts. A packet (dataDump/DDPacket.cpp) is a header and perhaps data, and is turned into
-- bytes and back. `DataDump` (dataDump/DDBase.cpp) sends and receives packets through the
-- callbacks and keeps the current and the next state of a machine; `DDServer` and `DDClient`
-- (dataDump/DDServer.cpp, dataDump/DDClient.cpp) are the two machines, each a `FSMLoop` that
-- their threads call again and again. Every wait is limited by a `btimer` (bTimer/bTimer.cpp).
-- dataDump/DDTest.cpp joins a server and a client by two queues. ErrorHandler/errorHandler.cpp
-- sorts error codes; the protocol only catches them. ClockAndTimer/source/msTimer.cpp is a
-- second timer, with a thread of its own, which the protocol does not use.
--
-- The files. Base: numbers, lists, tests and the outcome of code that may read out of bounds.
-- Packet: Types has the enumerations, Memory the arrays with faults, Header and BlockHeader the
-- two headers with one function per field conversion, Transaction and Block the two packets;
-- WireTransaction and WireBlock compare them with plain lists of bytes, the Decided files show
-- that no conversion goes on without end, Metadata treats the byte that frame number and
-- continue bit share. DataDump: State is the object and its surroundings, Monad the methods'
-- type, Ops the methods, Accept what `receive` does with bytes, Shared the steps that both
-- machines repeat; Checks, Carry and Polling treat `send` and `receive`, Phase, Quiet and
-- Switching follow an object through a method, Worlds and Sparing what a method keeps of its
-- surroundings, Does what a method certainly brings about, Entering the head of the loop, Line a
-- transport that carries one message at a time, Hangs treats methods that do not return. Server
-- and Client: States has one function per `case` of `FSMLoop`, Loop the loop itself and the
-- calls of the application; Steady, Moves and Sparing follow what holds of the object and of its
-- surroundings through all cases, Edges has the successors of each state, Refines compares the
-- loop with the graphs of Protocol, Opening treats the states before the blocks and Delivery the
-- blocks but the last over a Line, Server/Terms the terms of a transaction, Server/Blocks,
-- OneBlock and Segments the cutting into blocks, Server/Sending one step of the state BLOCK,
-- Server/Settle the acknowledgement, Server/Pointer the place of the server's pointer,
-- Client/Storage the writing of blocks, Client/Room what the client may write to. Transfer,
-- Handshake, Agreement, Delivery and Progress treat both sides, the last three by calls of the
-- two loops in turn. BTimer, ErrorHandler (Texts: its codes and their texts) and Crc16 are the
-- other classes, MsTimer the timer with a thread: Base and Ops are its classes, Loop its thread,
-- Expiry, Starting, Turns, Firing, Refiring and Races treat orders of steps. Harness is
-- dataDump/DDTest.cpp: Channel its queues, World what lies between the objects, Main the program
-- as turns of its threads, Execute and Whole whole runs, Orders the orders of the block phase,
-- Invariant and Schedules what any turns keep, Waiting the calls that do not return, Lines the
-- program as a Line, Loopback the test of the callbacks. Examples has the theorems at concrete
-- values.
--
-- State and operations. An object is the record `DataDump`; a method is a function from the
-- object and a world `W` to an outcome: a result with both after it, a fault (an access outside
-- an array or through NULL), or pending (a loop that has not ended). The callbacks, the calls of
-- the timer and `try_lock_for` are the fields of `Host W`, parameters of every method. A method
-- keeps its name in snake case: `setNextFSMState` is `set_next_fsm_state`, the case BLOCK of the
-- server `server_block`. The thread of `msTimer` is a place in `evaluationLoop`; a list of timed
-- events is an order of its steps and of the calls of others. A step of the thread is as long as
-- it holds the mutex, but for the stop at the end of a period, which is one step; the event of a
-- whole `start` or `stop` stands for a call in which the thread makes no step, the event
-- `section` for one section of a call. In the harness a round of the server is one step, which
-- contains the turns that the other threads take while it waits; a call of the client polls
-- once, and one that would poll again is left out with what it has done.
--
-- Bounds and fuel. A byte, a check sum, a counter and a `size_t` wrap around at 8, 16, 32 and 64
-- bits, written out where the source computes. The `do … while` loops are `poll`, whose number
-- bounds the rounds; the theorems on the program's runs say how many are enough. The timers of
-- the program never expire, so a wait without a message does not end. Only the server's state
-- REQUEST waits without a timer. `segments` needs one round for each frame number that is left,
-- as `segments_lem` says.
--
-- Not modelled: ClockAndTimer/header/Stopwatch.hpp, a copy of a library, whose calls are the
-- parameter `Stopwatch`; `usleep`, the logger, exceptions of callbacks (none throws),
-- destructors, the end of the program's threads and the threads of its timers, console output,
-- two threads inside one method of a machine (a mutex is free or not at each try), and the Boost
-- event loop beyond the calling of handlers.
pub mod Base
pub mod Packet
pub mod Protocol
pub mod DataDump
pub mod Server
pub mod Client
pub mod BTimer
pub mod MsTimer
pub mod ErrorHandler
pub mod Crc16
pub mod Harness
pub mod Transfer
pub mod Handshake
pub mod Agreement
pub mod Delivery
pub mod Progress
pub mod Examples
