-- ===== src/Lib.antt =====
-- The two servers of this repository. The IEC 60870-5-104 server, json-iec104-server/src, is a slave
-- that answers control stations over lib60870, takes values and commands as JSON lines on its standard
-- input, and prints the commands that it executes. The Modbus server, modbus-server, keeps registers
-- that Modbus clients read, and takes their values as JSON lines.
--
-- The parts of the first, and how they interact. The configuration parser fills a context for each
-- data type. A line of input updates a point of a context by `update_data`, and a change is put
-- into the slave's queue; while no client is connected, changes are queued at intervals. An
-- interrogation sends all points, and a thread sends two types periodically. Commands go through a
-- table of selections, and a reset clears the contexts. Connection events keep the registry of
-- clients, which a line of input can ask for.
--
-- Files, and the code that they model (paths below json-iec104-server/src, but for Legacy and Modbus):
--   Data/Types           data/data_types.h, data_types.c: DATA_TYPE_TABLE, DataValue and the look-ups
--   Data/Manager         data/data_manager.h, data_manager.c: DataTypeContext, find_ioa_index,
--                        get_data_context, values_equal, allow_offline_update, update_data,
--                        reset_all_data; proofs in the modules below it
--   Command              protocol/command_handler.c: the select table in Command/Select, the handlers
--                        and asduHandler in Command/Handler
--   Client               client/client_manager.c: the registry of connected clients
--   Interrogation        protocol/interrogation.c: create_io_for_type in Interrogation/Objects, the
--                        partition into ASDUs in Interrogation/Blocks, interrogationHandler in
--                        Interrogation/Station; what lib60870 does when an object is added to an ASDU
--                        is the record of Interrogation/Encoder
--   Periodic             threads/periodic_sender.c: send_periodic_data_for_type and a round of the thread
--   Input                input/input_handler.c: convert_input_to_value in Input/Convert, the offline
--                        tracking in Input/Tracking, input_handler_process_line in Input/Line
--   Config               config/config_parser.c: the parser in Config/Parser
--   Legacy               json-iec104-server.c, one directory up, the server in a single file that came
--                        before: interrogationHandler in Legacy/Interrogation, asduHandler in
--                        Legacy/Command, the update functions in Legacy/Points,
--                        process_data_update in Legacy/Server, run_server_loop in Legacy/Loop,
--                        parse_config_from_json in Legacy/Config, resetProcessHandler and
--                        SendPeriodicData in Legacy/Background
--   Server               main.c: the start, the callbacks, the input loop and the thread as the steps of
--                        one relation, and the shutdown
--   Modbus               the second server, modbus-server: json-modbus-server.c, whose settings are in
--                        Modbus/Settings, the registers in Modbus/Registers, process_json in
--                        Modbus/Command, the TCP clients in Modbus/Clients and the loop of main in
--                        Modbus/Server; Modbus/Refactored has its successor modbus-server/src, and
--                        compares the two
--   Globals              the configuration globals of main.c
--   Iec, Cjson, Cfloat   what the server uses of lib60870, of cJSON and of the floating-point unit
--   Base                 shared names, tests on numbers, and lists with native lengths
--   Tests                runs on concrete data
--
-- The Modbus server is a loop of rounds: a line of input, the start when there is no mapping yet, the
-- cleanup when the server has stopped, and the connections. What `select`, libmodbus and the system
-- return in a round is its environment, and a program run is a list of rounds, so the loop needs no
-- fuel. A signal arrives while the server waits in `select`. A read through NULL and a write outside
-- an array are a fault, which ends the run.
--
-- Numbers are natural numbers. An int is its 32-bit pattern and its sums are taken modulo 2 ^ 32; a
-- difference of two uint64_t is taken modulo 2 ^ 64; a float is its pattern. A pointer that may be NULL
-- is an Option, a connection the number of its pointer. A handler is a function from the state and what
-- it reads of its surroundings to the new state and what it sends and prints, in order. Mutexes make the
-- calls atomic, so each call is one step.
--
-- The loops over the points of a type advance by computed amounts and run on fuel: the number of points,
-- for a round of the outer loop takes one point at least and a chunk is not empty. The theorems on them
-- prove that the loops end with a result.
--
-- Not modelled: allocation failures, the texts of the log, the clock synchronisation (it formats
-- and prints a time), the calls that create and start the slave, the thread for integrated totals
-- and the signals of json-iec104-server.c, the client, and the adapters and the platform layer of
-- modbus-server/src. `convert_input_to_value` writes the time of an update through a pointer that is not
-- initialised: the address is a result of its model, and the state is taken to be out of its reach. An
-- access past an array is a fault in the Modbus server; in the server in a single file it sets a mark
-- in the type's points. lib60870 and cJSON are copies of other projects: what the server relies on is
-- a parameter.
pub mod Base
pub mod Iec
pub mod Cfloat
pub mod Globals
pub mod Data
pub mod Command
pub mod Client
pub mod Interrogation
pub mod Periodic
pub mod Cjson
pub mod Input
pub mod Config
pub mod Server
pub mod Legacy
pub mod Modbus
pub mod Tests
