-- ===== src/Lib.antt =====
-- The chat client of this repository: a terminal program that talks the IPK25-CHAT protocol over UDP or
-- TCP. src/main.c reads the options (src/args.c), opens the interface (src/comm.c) and runs the state
-- machine. The state machine (src/fsm.c) asks src/prompt.c for one prompt after another, which is a line
-- of the user (src/input.c) or a message of the server, and sends messages through an interface that is
-- filled with the UDP (src/comm_udp.c, src/udp_msg.c) or the TCP functions (src/comm_tcp.c,
-- src/tcp_msg.c). The UDP functions keep a list of seen message ids (src/list.c) and a queue of datagrams
-- that came while a CONFIRM was awaited (src/queue.c); the TCP functions keep a buffer of the stream
-- (src/buffer.c). All share the client's data and the validators (src/common.c).
--
-- Files:
--   Base        shared names, Boolean tests, lists (Base/Lists), blocks of memory (Base/Memory)
--   Common      lib/common.h and src/common.c; Common/Laws and Common/Copy prove
--   MsgIdList   lib/list.h and src/list.c; MsgIdList/Laws,
--               MsgIdList/Distinct and MsgIdList/Recorded prove
--   Queue       lib/queue.h and src/queue.c; Queue/Fifo says what a queue promises, Queue/Laws and
--               Queue/Runs prove it
--   Buffer      lib/buffer.h and src/buffer.c; Buffer/Laws and Buffer/Append prove
--   UdpMsg      src/udp_msg.c: builders in UdpMsg/Build, parsers in UdpMsg/Parse, proofs in the others
--   CommUdp     src/comm_udp.c: CommUdp/State, CommUdp/Process and CommUdp/Send model; CommUdp/Known,
--               CommUdp/Received and CommUdp/Once prove what a sequence of datagrams does,
--               CommUdp/Readable, CommUdp/Queued, CommUdp/Reading and CommUdp/NoFault that no block is
--               left, the others the rest
--   TcpMsg      src/tcp_msg.c; TcpMsg/Process also src/comm_tcp.c; TcpMsg/Grammar says what a line is,
--               TcpMsg/Content, TcpMsg/Name, TcpMsg/Sound and TcpMsg/Accept prove what is taken as one;
--               TcpMsg/Lines says how a stream is cut, TcpMsg/Stream, TcpMsg/Calls and TcpMsg/Runs prove it
--   Input       src/input.c; Input/Words, Input/Laws and Input/Commands prove
--   Fsm         src/fsm.c in Fsm/Machine, over abstract events; the others prove
--   Args        lib/args.h and src/args.c; Args/Laws, Args/Numbers, Args/Chosen and
--               Args/Order prove
--   Comm        lib/comm.h as an interface; Comm/Variants has its UDP and its TCP instance, of src/comm.c;
--               Comm/Wire and Comm/Framing say what may be sent, Comm/UdpKeeps and Comm/WireKeeps prove
--               what the calls keep, Comm/NoFault and Comm/UdpNoFault when they stay in their memory
--   Prompt      src/prompt.c over any instance of the interface; Prompt/Deadline, Prompt/Laws,
--               Prompt/Keeps, Prompt/Ready and Prompt/NoFault prove
--   Session     src/fsm.c again, over the real prompt and any instance of the interface; Session/Refine,
--               Session/Runs and Session/Speech relate it to Fsm/Machine, Session/Keeps and Session/Variants
--               prove what it keeps, Session/Parting how it ends, Session/Interrupted
--               what it says after Ctrl+C, Session/NoFault and Session/Memory that
--               it stays in its memory
--   Program     src/main.c, the set-up and the clean-up (Program/Setup); Program/Laws and
--               Program/Memory prove
--   Examples    the results below at concrete inputs, and the tests
--
-- How the code is modelled. A function of the model has the name of the C function; globals are records
-- that it takes and returns. A byte is a number below 256, and a block of memory a list of cells; a read
-- or a write outside a block, or through NULL, is the value `none`. The set that
-- `FD_SET` writes has FD_SETSIZE = 1024 places. What the system answers (malloc, realloc, strdup, sendto,
-- recvfrom, recv, getline) is an argument. Printed lines are values in a list. A string of the client's
-- data is the list of its bytes without the NUL. Sums of lengths are not cut to the
-- width of `int`: all are below 2^31. Message ids are counted modulo 2^16. The send loop of UDP runs over
-- the list of the network's answers, so it needs no fuel; only `queue_destroy` has fuel, and any number
-- above the number of messages is enough. Fsm/Machine runs over a list of events, each with the prompt
-- that `await` returns, whether sending succeeds and whether the interrupt flag is set, so it stands for
-- every behaviour of the prompt. Session and Prompt run over what the system answers instead: the clock,
-- `select`, `getline`, `recv` and so on, turn by turn; where the answers end, the call waits still. The
-- seconds of `src/prompt.c` are integers of any sign (Base/Int). The descriptors and address lists that
-- the process holds are counted, and the other effects of the calls of the system are not.
--
-- Not modelled: the text of the help and of the lines on stderr; `shutdown`, `tcflush` and `signal`, which
-- change nothing that the model has (the handler is the flag that a turn of the loop may find set); the
-- Python test server under test/.
pub mod Base
pub mod Common
pub mod MsgIdList
pub mod Queue
pub mod Buffer
pub mod UdpMsg
pub mod CommUdp
pub mod TcpMsg
pub mod Input
pub mod Fsm
pub mod Args
pub mod Comm
pub mod Prompt
pub mod Session
pub mod Program
pub mod Examples
