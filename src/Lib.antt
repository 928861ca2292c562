-- ===== src/Lib.antt =====
-- OCTCommu is a C++ library that gives an application UDP, TCP and serial links through the classes
-- IUDP, ITCP and ISP (src/Communcation/OCTCommu.h). A link takes the application's bytes and sends
-- them, and hands what arrives to a function that the application has set, at once or through a queue
-- and a thread pool. A stream buffer beside the links cuts a byte stream into frames.
--
-- Files and code:
--   StreamBuffer    src/Util/StreamBuffer.h, StreamBuffer.cpp: append, getNextFrame, init
--   FixedBuffer     src/Util/FixedBuffer.h: the byte arrays of the links, with pointers as addresses
--   BlockingQueue   src/Util/BlockingQueue.h: put and take, each one step under the mutex; Traffic
--                   has them in any order, and Contract what a link with such a queue is to satisfy
--   SpBuffer        SPBuffer of src/SerialPort/SPUnix.h: received bytes that wait
--   SpParams        SPInit and src/SerialPort/SPParamHelper.h: the settings and their check
--   Termios         src/SerialPort/SPUtil.cpp and initSPProperty of SPUnix.cpp
--   SpUnix          src/SerialPort/SPUnix.cpp: the calls; Sending has writeEvent and flushAllData,
--                   Reading has readEvent, onReadData and pushData2Client, Poller has
--                   pollerThreadFunc, Opening the way through init, Safety the states that all of
--                   these reach, and Lifecycle the port with its thread, from construction to the
--                   destructor, round by round
--   SpWin           src/SerialPort/SPWin.cpp: the calls; Win32 has what it uses of Windows, Opening
--                   init with the configuration, Receiving recvTheadFunc
--   Threads         src/Util/ThreadPlus.cpp, with CountDownLatch.cpp in Latch and ElapsedTimer.h in
--                   Timer; Steps has the thread and its starter in any order
--   Udp             src/Communcation/UDPImp.cpp: the calls; Receiving has the way of a datagram,
--                   with datagrams and tasks of the pool in any order in its Schedule, and Reached
--                   the states that a link reaches
--   Tcp             src/Communcation/TCPCommon.cpp; Client, Server and Dispatch have TCPClientImp.cpp,
--                   TCPServerImp.cpp and TCPImp.cpp with the guard of ITCP::init in OCTCommu.cpp
--   Facade          src/Communcation/OCTCommu.cpp: Iudp, Itcp and Isp, which pass calls on
--   Shared          lists, memory copies, Boolean tests and signed results for all of them
-- In each part a record is the state of the class, and a function with the source's name, in lower
-- case with underscores, is a method: it takes the object and gives the result and the object after.
-- `SpUnix` has buffers of `FixedBuffer` and `SpBuffer`; `Udp` and `Tcp` have a `BlockingQueue` of
-- `FixedBuffer`s. `Facade.Isp` takes the calls of its port as an interface, which `SpWin` and
-- `SpUnix` fill, the second with the proof that its buffers are sound.
--
-- Conventions: a byte is a number. `Option` with `none` stands for a write outside an array, or, as
-- each comment says, for a loop that has not ended. Sizes of arrays are arguments where the code has
-- templates. What `read` and `write` answer is a list of results, a call by the application or an
-- event is one step, and mutexes make each step whole. Numbers wrap where the code converts between
-- int and size_t; other counts stay far below their widths.
-- Fuel: flush_all_data is on fuel because it calls itself; one unit is enough where the bytes loaded
-- do not make it call itself again. write_loop and read_loop go through the list of answers.
-- push_loop is on fuel, and one more than the bytes held is enough for a length other than 0.
--
-- Parameters: toolkit::Socket, SockUtil, std::regex, strtol, the terminal masks, the system calls and
-- the Windows API.
-- Not modelled: the copied toolkit (src/Network, src/Poller, src/Thread and most of src/Util), which
-- only its calls reach, and src/win32/getopt.c, a copy of another project's. Apart from ThreadPlus
-- and its caller, and the port's calls with its poller thread in Lifecycle, threads run only as
-- sequences of whole steps.
pub mod Shared
pub mod StreamBuffer
pub mod FixedBuffer
pub mod BlockingQueue
pub mod SpBuffer
pub mod SpParams
pub mod Termios
pub mod SpUnix
pub mod SpWin
pub mod Threads
pub mod Udp
pub mod Tcp
pub mod Facade
