-- ===== src/Lib.antt =====
-- A forwarder of EPICS channels to Kafka. Commands on a Kafka topic map channels to streams; each stream
-- has an EPICS client that puts updates into a buffer; worker threads ask a scheduler for work, which
-- visits the streams in turn and queues one packet for each update and conversion path; the worker has
-- the path convert the update and hand the result to a Kafka producer.
--
-- The files, and the code that each is about:
--   Base                 shared names; lists, texts and integers over native numbers; exceptions as values
--                        (Base/Except) and code that changes a state and throws (Base/Stateful)
--   Queue                moodycamel::ConcurrentQueue by its documented promises, an interface
--   Json                 src/json.h, src/json.cpp: find, find_array
--   Uri                  src/URI.h, src/URI.cpp: parse, the constructor
--   ConfigParser         src/ConfigParser.h, src/ConfigParser.cpp; Split has split and setBrokers, Laws
--                        what the settings say of the document
--   Stream               src/Stream.h, src/Stream.cpp; Outputs is about addConverter, Fill has
--                        fillConversionQueue with the heap of its packets, in which Push, Loop and Mark
--                        follow its loops, Refines puts them together and Frame says what it leaves alone
--   Streams              src/Streams.h, src/Streams.cpp; Stops says who is stopped
--   ConversionWorker     src/ConversionWorker.h, src/ConversionWorker.cpp: run and ~ConversionWorkPacket;
--                        Transit and Drain are about the transit counters, Emits has one round
--                        of the inner loop, Thread has start, stop and the outer loop
--   ConversionScheduler  the same files: ConversionScheduler::fill; Turns has the order of its visits and
--                        the interface IsFiller, which Pipeline fills with fillConversionQueue;
--                        Simulates has the scheduler follow a specification of its visits
--                        Races has it beside threads that add and remove streams
--   Pipeline             a whole round of a worker; Refines says what it does to buffers and outputs
--   Forwarder            src/Forwarder.h, src/Forwarder.cpp: addMapping and all that it calls; State has
--                        the state, Flag the flag of the main loop; Frame, Mappings and Retry are about addMapping
--   CommandHandler       src/CommandHandler.h, src/CommandHandler.cpp, reportStatus of
--                        src/StatusReporter.cpp; Events is about sequences of events
--   EpicsClient          src/EpicsClient: Impl is EpicsClientMonitorImpl, Monitor EpicsClientMonitor,
--                        Factory EpicsClientFactoryInit, Requester the two requesters, Random
--                        EpicsClientRandom, with what the f142 converter makes of its updates
--   Kafka                src/KafkaW: ProducerTopic, Producer, ProducerDeliveryCb; Ownership is about the
--                        life of a message, Producers has src/Kafka.cpp
--                        and src/KafkaOutput.cpp, and Consumer src/KafkaW/Consumer.cpp and
--                        src/Config.cpp; Settings has the constructor of Producer with
--                        src/KafkaW/BrokerSettings.cpp, Connect that of Consumer and
--                        src/KafkaW/KafkaEventCb.h, and Closing the destructor of Producer and the
--                        loops of src/Kafka.cpp; Race has `produce` beside other threads that poll
--   Workers              several workers side by side, step by step: Counters has what holds of all
--                        queues, Runs that each step keeps it, Conserves what becomes of what was
--                        taken from the streams, Clears what a counter of zero says, Destroy is
--                        about ~ConversionPath of src/Stream.cpp beside them
--   Delivery             a round of a worker down to librdkafka: ConversionPath::emit of src/Stream.cpp
--                        with the converters, and KafkaOutput::emit of src/KafkaOutput.cpp on the
--                        producers, as the outputs of Pipeline; Rounds says what is delivered
--   TdcTime              src/schemas/tdc_time/TdcTime.cpp; Stamps reads its time stamps back
--   F142                 src/schemas/f142: f142.cpp and DataFromPVStruct.cpp;
--                        Arrays has the bytes of an array, in which Reads is about their reader
--   SchemaRegistry       src/SchemaRegistry.h, src/Converter.cpp, registerSchemas
--   MainOpt              src/MainOpt.cpp, src/logger.cpp; Levels is about the levels of the logger, Outcome
--                        about parse_opt
--   Timer                src/Timer.cpp: its thread and the others, step by step; Stops is about its end
--   Metrics              reportMetrics of src/MetricsReporter.cpp
--   Reporter             the asio timers of src/MetricsReporter.cpp and src/StatusReporter.cpp; Schedule
--                        says when they report, Stops how they end, Status has reportStatus
--   RangeSet             src/RangeSet.h
--   MainLoop             the constructor, the main loop and the destructor of src/Forwarder.cpp; Mapped and
--                        Startup are about the constructor, Shutdown about the end of the loop
--   Main                 src/Main.cpp; Exits says with which code the process ends, Signals has the
--                        handler of the signals
--   Tests                concrete inputs
--
-- Functions keep their names in small letters with underscores: Stream::addConverter is
-- Stream.add_converter. Objects that several owners share stand in stores, by addresses: updates, packets
-- and clients. An exception is a value of Exception, and Step keeps the state that was reached. Unsigned
-- integers are natural numbers with their wrap-around written out.
--
-- Fuel: serve_rounds has one unit for each stream, which is enough since the loop ends where it began;
-- split_loop has the size of the text and one; drain has any number above the packets that wait;
-- poll_all has the elements and one. The lists of wait_for_stop, stop and destroy have what others do before
-- each step of the thread that is joined. The destructor of a producer counts its iterations itself.
--
-- Parameters are what is not in the repository: the queue, nlohmann's parser and printer, std::regex and
-- std::stoi, CLI11, spdlog, asio, librdkafka's answers, the code that flatc generates, and EPICS. Other
-- threads are events between the turns of the main loop, in any order; the mutexes make an operation one
-- step. The scheduler, `produce`, ~ConversionPath, the timers and the signals are also modelled step by
-- step beside other threads. fill_among needs twice the number of streams as fuel; destroy_path has one
-- sleep of the destructor for each element of its list.
--
-- Not modelled: how long the threads sleep, other interleavings within a filling of the queue, signal
-- handlers on other threads, the texts of log messages, how flatbuffers
-- stores a scalar or a text, the name of the host in the metrics, and the sending by CURL.
pub mod Base
pub mod Queue
pub mod Stream
pub mod ConversionWorker
pub mod ConversionScheduler
pub mod Uri
pub mod Json
pub mod ConfigParser
pub mod EpicsClient
pub mod Streams
pub mod Forwarder
pub mod CommandHandler
pub mod Kafka
pub mod Pipeline
pub mod Tests
pub mod TdcTime
pub mod F142
pub mod MainOpt
pub mod Timer
pub mod SchemaRegistry
pub mod MainLoop
pub mod Metrics
pub mod RangeSet
pub mod Main
pub mod Delivery
pub mod Workers
pub mod Reporter
