-- ===== src/Lib.antt =====
-- FairMQ, a message queuing library and a framework of devices that pass messages over channels
-- (paths are from the repository's root).
--
-- A device (fairmq/FairMQDevice.cxx) has channels (fairmq/FairMQChannel.cxx), which own a socket of
-- one of the transports (fairmq/zeromq, nanomsg, shmem, ofi), and is driven by a state machine
-- (fairmq/FairMQStateMachine.cxx): a thread of the user, or a plugin through the plugin services
-- (fairmq/PluginServices.cxx), calls ChangeState; the machine's actions hand the handlers of the
-- device to the worker thread ProcessWork, and the handlers report their end by ChangeState again.
-- The handler InitWrapper names the channels, validates them and attaches their sockets; a handler
-- in RUNNING sends and receives on them.
--
-- The files:
--   Base: lists, texts (std::string as a list of bytes), decimal numerals, and Outcome, in which a
--     call ends: a result, an exception, or exit(EXIT_FAILURE). Base/Algorithm has
--     boost/algorithm/string as a record of operations with laws, and a value of it.
--   Transports: fairmq/Transports.h.
--   Channel: the fields, constructors and setters of FairMQChannel. Channel/Endpoint and
--     Channel/Validate: ValidateChannel, by the address of an endpoint, an endpoint, the endpoints,
--     and the whole. Channel/Name: the name that InitWrapper of fairmq/FairMQDevice.cxx gives a
--     channel, with GetChannelPrefix and GetChannelIndex. Channel/Accepts describes the accepted
--     endpoints by their form, apart from the code; Channel/Sound has a channel's life as a sequence
--     of calls.
--   Fsm: the states and events of FairMQStateMachine. Fsm/Names and Fsm/Table: its names and its
--     transition table. Fsm/Machine: the fields and the actions of Machine_; boost::msm, which
--     chooses the rows that fire, is the record Msm with its documented rule, and a value of it.
--     Fsm/Threads: the interleavings of an outside caller of ChangeState with the worker, as a step
--     relation; the mutex fChangeStateMutex and the wait for fWorkActive are in it. The other files
--     of Fsm hold the invariant of the interleavings, and what follows from it.
--   Plugins: the states and transitions of PluginServices. Plugins/Names: its six maps.
--     Plugins/Control: the operations on fDeviceController, which hold fDeviceControllerMutex
--     throughout and are therefore atomic; the calls of FairMQDevice::ChangeState are kept in order.
--   Controller: the sequences of fairmq/plugins/Control.cxx. Controller/Device is the device as the
--     plugin meets it, computed from the tables of Fsm; Controller/Sequences has RunStartupSequence,
--     RunShutdownSequence and StaticMode with the queue of reported states.
--   Options: Options/Parser is fairmq/options/FairMQParser.cxx, from a property tree to the map of
--     channels; boost::property_tree is the record PropertyTree. Options/SubOptions is
--     fairmq/options/FairMQSuboptParser.cxx, with getsubopt as a function from a token to what its
--     calls find.
--   Zeromq: the counters and timeouts of FairMQSocketZMQ; zmq_msg_send is the record Zmq, which
--     answers each call, with the documented rule that only the first part of a message is refused
--     with EAGAIN. Zeromq/Send: both SendImpl. Zeromq/Receive: ReceiveImpl of a message, and
--     Zeromq/Multipart: that of a vector of messages, with zmq_msg_recv as a function from the
--     number of the call to its answer. Zeromq/Message is fairmq/zeromq/FairMQMessageZMQ.cxx,
--     where a zmq_msg_t counts by its bytes. Zeromq/Poller is fairmq/zeromq/FairMQPollerZMQ.cxx: a
--     channel counts by its socket, a handle, and what zmq_poll answers is a parameter.
--   Transfer: the loop that the sockets of the next two transports have in common. A reply is what the
--     library answers to one call, as the loop reads it.
--   Shmem: messages and meta headers of fairmq/shmem, and the store that the processes share: the
--     segment by the handles that are allocated, and the manager's regions. Shmem/Chunk is
--     fairmq/shmem/FairMQMessageSHM.cxx, Shmem/Socket the transfers of
--     fairmq/shmem/FairMQSocketSHM.cxx, Shmem/Regions the rest of fairmq/shmem/Manager.cxx.
--     Shmem/Monitor has the checks and heartbeats of fairmq/shmem/Monitor.cxx. The allocator,
--     ZeroMQ and the regions' queues answer by the record World and by functions from the number
--     of a call. Shmem/System puts processes together: a state is the store, the messages and the
--     headers on the way, and a step is a call.
--   Nanomsg: fairmq/nanomsg/FairMQMessageNN.cxx, with a heap that counts the chunks of nanomsg.
--     Nanomsg/Socket: the transfers of fairmq/nanomsg/FairMQSocketNN.cxx; msgpack is the record
--     Msgpack, with the law that an object is unpacked as it was packed.
--   Device: BindEndpoint of fairmq/FairMQDevice.cxx, over the socket's Bind and the random ports.
--     Device/Attach: AttachChannel with the socket's calls; a factory counts by its transport, and the
--     change of the configuration is left out.
--     Device/Init: InitWrapper and AttachChannels, from the channels on, with the events that they ask
--     for; each call of AttachChannel meets its own answers.
--     Device/Inputs: OnData and HandleMultipleChannelInput, by what CheckInput tells behind each Poll;
--     for several transports, up to the start of their threads.
--   Devices: the splitter, the multiplier and the sink of fairmq/devices, by the calls of Send that
--     they make and the results of Receive that they get.
--   Manager: the search paths, the loading and the instantiation of plugins of
--     fairmq/PluginManager.cxx, up to the program options; boost::dll is a parameter.
--   RateLimit: fairmq/tools/RateLimit.h, with the time that passes as a parameter.
--   The files Tests hold concrete runs and instances.
--
-- Bounds and fuel: the number of rounds of SendImpl and ReceiveImpl is a fuel, and `limit` of
-- Zeromq/Returns is how much of it a time limit needs; without one the source loops until ZeroMQ
-- takes or has a message. The loops of Shmem/Chunk, for the allocation and the acknowledgement of a
-- block, have as fuel the number of tries; the source bounds neither. BindEndpoint makes at most 1001 attempts, which is its fuel. The
-- retries in InitWrapper have their number as fuel; the source goes on until all channels are
-- connected. A decimal
-- numeral has its number as fuel, which is more than it has digits. The counters of a socket wrap
-- at 2 ^ 64. The rounds of the loop in RunShutdownSequence are a fuel, of which `rounds` of
-- Controller/Moves is enough. Timeouts of a socket are taken as not negative.
-- The elapsed time of a transfer is an int, kept by its bits below 2 ^ 32; the result of a transfer,
-- also an int, is kept as the number of bytes. RateLimit has no result where an int overflows.
--
-- Left out: the mutex of a channel, which no method keeps while it calls another; log output; the
-- callbacks on state changes, but that they are called, and WaitForEndOfState; the handlers' own
-- work, of which the interleavings have only the events it reports; exceptions out of handlers.
-- One outside caller is modelled, since fChangeStateMutex lets one through at a time. The control
-- plugin's interactive mode and its threads are left out, and its requests meet a device at rest; in its static
-- mode the device's Run may return while it waits for a report.
-- Not modelled are transferring in FairMQDevice and FairMQChannel, the threads that poll
-- inputs of several transports,
-- the pollers of the other transports, the clean-up of the monitor and the threads of a region in
-- fairmq/shmem, the transport of fairmq/ofi, the other devices, FairMQProgOptions, and the other
-- plugins.
pub mod Base
pub mod Transports
pub mod Channel
pub mod Fsm
pub mod Plugins
pub mod Controller
pub mod Options
pub mod Zeromq
pub mod Transfer
pub mod Shmem
pub mod Nanomsg
pub mod Device
pub mod Devices
pub mod Manager
pub mod RateLimit
