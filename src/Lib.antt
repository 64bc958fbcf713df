-- ===== src/Lib.antt =====
-- msg-perf-tool: a performance tool for messaging systems. Daemons that send and receive messages
-- are steered over a note protocol (src/orchestration/maestro), and run their tests in child
-- processes that a worker manager starts, reads and stops (src/worker). This library models these
-- two parts, the buffers, payloads, handlers and reports of src/common, the bindings of src/api to
-- the messaging libraries, the loops of the children, and the sides of the protocol: the client
-- and the daemons of src/applications.
--
-- The parts and their files:
--
-- Base and its children: C's tests on unsigned numbers, lists measured by native numbers, memory
-- as bytes, and runs that return or touch memory they do not own.
--
-- Content: src/common/msg_content_data.c, the message buffers. Content/Filling has the filling
-- loops, Content/Random the random fill and the copy.
--
-- Strategy: pl_fixed_strategy.c and pl_variable_strategy.c of src/common/strategies/payload.
-- Strategy/Sizes has the sizes of the messages that they deliver.
--
-- Maestro: the note protocol of src/orchestration/maestro. Maestro/Command and Maestro/Note are
-- maestro_note.h and maestro_note.c; Maestro/Serialize is maestro_serialize.c; Maestro/Assign and
-- Maestro/Deserialize are maestro_deserialize.c, function by function; Maestro/Sheet is
-- maestro_sheet.c with maestro_instrument.c. Maestro/Msgpack states what they rely on of
-- msgpack-c, which is a parameter. Maestro/Message is the specification: what a note says without
-- its memory, and the wire format of it. Maestro/Encode and Maestro/Decode relate the two
-- directions to it, Maestro/Headers and Maestro/Reads have the steps of the second,
-- Maestro/RoundTrip joins them, Maestro/Hostile is about input that no well-formed note produces.
-- Maestro/Sheet/Walk and Maestro/Sheet/Answers are about what a player answers. Maestro/Player is
-- the thread of maestro_player.c, and Maestro/Player/Replay what it does with the notes that
-- arrive. Maestro/Player/Lifecycle is its start and its stop, and Maestro/Player/Stopping is about
-- the two. Maestro/Notify is maestro_notify.c, and Maestro/Notify/Wire what a notification says
-- and leaves of the handlers. Maestro/Easy is maestro_easy.c, the client's side of a request
-- without a payload.
--
-- Handlers: src/common/vmslh.c, the handlers that the messaging layer runs. Handlers/Lists has
-- them as a table from functions to payloads.
--
-- Worker: the worker manager of src/worker. Worker/Ipc is the queue between a worker and its
-- manager (src/worker/ipc), Worker/Snapshots the manager's copy of a worker's reports,
-- Worker/Table the list of worker_list.c with its lock, Worker/Watchdog the watchdog of
-- worker_manager.c, Worker/Clone the start of a test and Worker/Stop its end. Worker/Drain,
-- Worker/Watching, Worker/Rounds and Worker/Locking are about when an update ends, what a round of
-- the watchdog does, when its loop ends, and when the lock is given back; Worker/Cloning and
-- Worker/Restart are about what a start leaves behind.
--
-- Load: the loops that run in the children: naive_sender.c, rate_sender.c, naive_receiver.c and
-- rate_receiver.c of src/worker, with worker_check of worker_utils.c. Load/Turns is the shape of
-- these loops, Load/Sending and Load/Receiving are the programs, Load/Accounts is about what a
-- sender counts, Load/Stalling about a receiver of messages without time stamps.
--
-- Vmsl: the results of the abstract messaging layer, src/common/vmsl.h, and the choice of a
-- binding in src/api/vmsl_assign.c.
--
-- Bindings: src/api with the options of src/common/msgctxt.h. Bindings/Paho is paho-handlers.c,
-- the handlers that an address's parameters set up, and Bindings/Paho/Transfer paho-wrapper.c:
-- sending with and without a time stamp, and receiving. Bindings/Paho/Storing and
-- Bindings/Paho/Receiving are about the buffer that is received into, Bindings/Paho/Sending about
-- what is published, Bindings/Paho/Latency joins the payload strategies and the sending with a
-- time stamp, Bindings/Paho/Retained joins the binding and the notifications, Bindings/Paho/Tables
-- is about the lists of handlers. Bindings/Proton is proton-handlers.c and
-- Bindings/Proton/Transfer proton-wrapper.c, over the operations of a messenger;
-- Bindings/Proton/Holding and Bindings/Proton/Settling are about the messages that are taken and
-- not settled, Bindings/Proton/Modes about the qualities of service. Bindings/Stomp is
-- stomp-wrapper.c, and Bindings/Stomp/Unread joins it and the player.
--
-- Reports: the writers of src/common/statistics, csv_writer.c, hdr_wrapper.c and naming_utils.c.
-- Reports/Names is about the names of the files, Reports/Formats and Reports/Histograms about the
-- files that are opened.
--
-- Daemon: src/applications/mpt-daemons. Daemon/Options and Daemon/Common are daemon_common.c with
-- worker_options.h, Daemon/Sender, Daemon/Receiver and Daemon/Broker the handlers and the sheets
-- of senderd_worker.c, receiverd_worker.c and brokerd_worker.c; a daemon's static variables and
-- the worker manager are one state that its instruments change. Daemon/Text has the C library's
-- reading of numbers. Daemon/Requests and Daemon/Crashes are about requests that reach a daemon.
-- Daemon/Node is the main loop of senderd_worker.c and of receiverd_worker.c beside the thread
-- that plays requests: each step of the loop and each request is one step, in any order;
-- Daemon/Node/Reach and Daemon/Node/Steps are about the states that are reached, Daemon/Node/Lost
-- about a start that is dropped. Daemon/Failures joins a notification of one daemon and the
-- handler of another one. Daemon/Inspection is the inspection of brokerd_worker.c with the report
-- of src/common/bmic/bmic_writer.c; Daemon/Inspection/Turns is about how it ends,
-- Daemon/Inspection/Columns about the rows of its report.
--
-- Client: the commands of maestro_command.c and the connection of maestro_cmd_ctxt.c in
-- src/applications/maestro. Client/Collecting is the collection of the answers that wait in its
-- queue, with the buffer that holds a message and its type, and Client/Showing about the lines
-- that it prints; Client/Polling is the commands that collect in turns, and Client/Rounds about
-- them. Client/Steering joins the client, the player and the daemon that sends.
--
-- Examples: the theorems at concrete inputs, with a small codec that keeps the laws of msgpack.
--
-- How the state corresponds: a C struct is a record, and a pointer to a buffer an optional list of
-- bytes. A note's payload pointer is null, an allocation, or an address that is none. The
-- deserializer writes objects through untyped pointers; a store is a write over the bytes of the
-- member and of what lies behind it, and one that runs past the end of its region crashes.
-- Enumerations are numbers, as they come off the wire. Sizes are numbers with the wrap-around of
-- their width written out.
--
-- What comes from outside is an argument: the memory that gru_alloc and strdup return, the numbers
-- of rand, the answers of the kernel to reads of a queue, to fork, waitpid and kill, the answers
-- of the messaging libraries and of the library that asks a broker, and the instruments of a
-- sheet. No theorem fixes a time or an order that the operating system chooses: the answers are
-- functions of the process and of the number of the call.
--
-- Fuel: the update of a snapshot, the loop of the watchdog, the collection of the client, the loop
-- of the player, the loop of an inspection and the loops of the senders and receivers run on fuel,
-- and a run that has not ended has no result. One more than the number of waiting snapshots is
-- enough for the update, two more than the round from which no child runs for the watchdog, one
-- more than the number of messages in its queue for the client, one more than the round before
-- which the player is cancelled for the player, one more than the turn before which the daemon is
-- stopped for an inspection, and one more than the number of messages of its test for a sender.
--
-- Not modelled: logging, which changes no state; the values that are printed as floating point,
-- the rates and the load, and the records of a histogram; the writers that only print; the options
-- on the command line (src/common/contrib), which are arguments; the processes and their
-- directories (src/common/process_utils.c); and the programs on the command line. In the reports
-- of the senders and receivers a row stands for the snapshot it takes its members from. The gru
-- library is a parameter: addresses, values, durations, levels and times are numbers that its
-- functions return, or lists of bytes.
pub mod Base
pub mod Content
pub mod Vmsl
pub mod Bindings
pub mod Client
pub mod Handlers
pub mod Daemon
pub mod Maestro
pub mod Strategy
pub mod Worker
pub mod Load
pub mod Reports
pub mod Examples
