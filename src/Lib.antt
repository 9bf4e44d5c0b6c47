-- ===== src/Lib.antt =====
-- Verification of the SpiNNaker front end's common parts (package spinn_front_end_common).
--
-- The program loads data onto a SpiNNaker machine, runs it, and reads data back. Its parts that are
-- modelled here, and the files that model them:
--
--   Gatherer: spinn_front_end_common/utility_models/
--     data_speed_up_packet_gatherer_machine_vertex.py. The protocol between the host and the core
--     that moves blocks of SDRAM over UDP. `Gatherer` is the object's state. `Gatherer.DataIn` is
--     send_data_into_spinnaker and what it calls (`Packets` and `Stream` the messages, `Exchange` the
--     loop), `Gatherer.DataOut` is get_data and what it calls (`Requests`, `Output`, `Receive`). The
--     connection is the list of what its `receive` yields, packets or timeouts, one event per call;
--     what is sent is the list of messages that each step returns, also where it raises. `Spliced`
--     has the packets of the core, which c_common/models/system_models sends.
--   Buffers: spinn_front_end_common/interface/buffer_management. `Region` is
--     storage_objects/buffered_sending_region.py, `Sent` is storage_objects/buffers_sent_deque.py,
--     `Manager` the initial load of buffer_manager.py. `Queue` is the specification of `Region`, a
--     queue of timestamps with their keys. The sizes of EIEIO messages are parameters. The manager's
--     loop runs on fuel, one round for each byte of the region: every message takes at least one.
--   Dsg: spinn_front_end_common/interface/ds and interface/interface_functions/
--     load_data_specification.py. `Database` is what ds_sqllite_database.py keeps for one core,
--     `Generator` is data_specification_base.py with data_specification_generator.py, `Malloc` and
--     `Load` are the set-up of a core's memory and its loading. Values come encoded by their data
--     type; the address that the transceiver allocates is an argument.
--   Commands: the commands for devices, spinn_front_end_common/utility_models/multi_cast_command.py
--     and command_sender_machine_vertex.py. `Sender` keeps the commands and their partitions, `Spec`
--     writes them through the generator of `Dsg`, `Reader` is how the C program reads them. The order
--     of a set's members, the simulation header and the keys that were allocated are arguments.
--   Router: the host's compression of routing tables with bit fields, spinn_front_end_common/
--     interface/interface_functions/host_bit_field_router_compressor.py. `Bitfields` reads the bit
--     fields, `Order` numbers them, `Merge` converts the table and searches, `Compress` is the whole
--     for one chip. The table's `add`, the compressor and `find_max_success` are arguments. `Flagged`
--     says what the flags that are written to the memory mean, beside the code.
--   Run: the longest run that the SDRAM allows (`Sdram`) and the division of a run in steps
--     (`Steps`), in spinn_front_end_common/interface/abstract_spinnaker_base.py, and the counters in
--     spinn_front_end_common/data/fec_data_writer.py. The addition of SDRAM requirements is an
--     argument. The quotient of a run by its longest step is exact; the source's floating-point one is
--     so for fewer than 2^53 time steps.
--   Injection: the source of keys at given times, spinn_front_end_common/utility_models/
--     reverse_ip_tag_multicast_source_machine_vertex.py. `Source` fills the region of keys to send
--     (that of `Buffers`), `Rates` is how many keys it plans for in a time step, `Masks` the mask and
--     the prefix. The keys of the vertex and the times of the run are arguments. `Loaded` hands the
--     filled region to the initial load of `Buffers`, as the buffer manager does.
--   SystemRoutes: the routes from the Ethernet chip of a board to its other chips,
--     spinn_front_end_common/interface/interface_functions/system_multicast_routing_generator.py.
--     `Tree` searches the board, `Entries` adds the routing entries along the tree, `Matching` is how a
--     router matches a packet's key with an entry's key and mask. The machine's chips and links, the
--     order in which the members of a set are taken, the processors of the monitors and the table's
--     `add` are arguments. A search has one round more than there are chips
--     to reach, a way as many as the tree has entries.
--   Monitor: the reinjection of dropped packets. `Status` is what the monitors report,
--     spinn_front_end_common/utilities/utility_objs/reinjection_status.py, `Control` the messages to
--     them, of spinn_front_end_common/utilities/scp/reinjector_control_process.py and of the folder
--     extra_monitor_scp_messages, and the settings of the monitor, in
--     spinn_front_end_common/utility_models/extra_monitor_support_machine_vertex.py. `Config` is the
--     data specification of that vertex, from the routes of `SystemRoutes` through the generator of
--     `Dsg`; `Reader` is how the core reads it.
--   Common: what the parts share. `Results` are calls that may raise, `Sends` calls that also send,
--     `Words` the 32-bit words of Python's struct, `Numbers` sets of numbers.
--
-- The loops run over the events that come in, over a number of rounds that the code computes before
-- the loop, over the list that the code iterates over, or, where the code's loop has no such bound,
-- over a number of rounds that the definition's caller computes and the theorems show to be enough.
-- Words keep their 32 bits by the range check of struct, the transaction id and sequence numbers
-- their wrap-around.
--
-- Not modelled: reports and logging, the sockets and the transceiver behind them, databases, the
-- allocation and mapping done by other packages, and the optional check of written data by reading
-- it back, which the source switches off.
pub mod Buffers
pub mod Commands
pub mod Common
pub mod Dsg
pub mod Gatherer
pub mod Injection
pub mod Monitor
pub mod Router
pub mod Run
pub mod SystemRoutes
