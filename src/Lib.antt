-- ===== src/Lib.antt =====
-- A model of Soft Patch Panel (SPP), a patch panel for virtual network functions on DPDK.
--
-- The parts and how they interact. spp_primary and spp_nfv forward packets between ports by a table of
-- patches (src/shared/port_manager.c) that a loop walks (src/shared/basic_forwarder.c). spp_vf runs
-- components on worker threads: forwarders and mergers (src/vf/forwarder.c) and classifiers
-- (src/vf/classifier.c). Its main thread keeps the components and their ports
-- (src/shared/secondary/spp_worker_th/cmd_utils.c), changes them by commands (src/vf/vf_cmd_runner.c),
-- and hands them to the threads. What a thread reads is kept on two sides: the main thread fills the
-- side that no thread reads, marks it by setting `upd_index` to `ref_index`, and waits until the
-- thread has moved `ref_index` to it. The threads receive and send through
-- src/shared/secondary/spp_worker_th/port_capability.c, which adds and deletes VLAN tags.
--
-- The files.
--   Base: names of the libraries, and lists, arrays as functions, and counted loops.
--   Ethdev: what the sources use of DPDK, as an interface with laws: the bursts, the mbufs with the
--     references that the program acquires and gives back, and the bytes of an mbuf. Ethdev/Sim is an
--     instance that shows that the laws can hold.
--   PortManager: port_manager.c. `PortState` is `ports_fwd_array`, `port_map` and the counters; each
--     function has the name of its C function. Wired, Ports, Patch and Remove hold the proofs.
--   BasicForwarder: basic_forwarder.c. `forward_one` is the body of the loop of `forward`; its result
--     is `none` where the C code would call a function pointer that was never set.
--   Nfv: the commands of src/nfv/commands.h that change the table, with `get_port_type`. A driver is its
--     result, and an access behind the end of an array is `none`.
--   WorkerTypes: data_types.h.
--   Capability, Vlan: port_capability.c. `swap_upd` and `swap_ref` are the two uses of
--     `sppwk_swap_two_sides`; a packet is the list of its bytes.
--   Forwarder: forwarder.c. Classifier, ClsWorker: classifier.c, its tables and its thread; a table of
--     addresses is an interface with the laws of `rte_hash`. Classifier/Search is the description
--     that the tables are compared with.
--   Manager, ManagerInit: cmd_utils.c, and `del_comp_info` of cmd_runner.c. Lcore:
--     `update_lcore_info` of cmd_utils.c with the part of `slave_main` (src/vf/spp_vf.c) that answers it.
--   VfCommand, VfComponent, VfClsTable, Flush: vf_cmd_runner.c, the commands port, component and
--     classifier_table, and `update_comp_info`. CmdRunner: `exec_cmds` of cmd_runner.c.
--   CmdParser: src/shared/secondary/spp_worker_th/cmd_parser.c with cmd_parser.h. Params and ClsParams
--     are the functions on the parameters, Request the tables and the parser. Accepted, Total, Tables
--     and Sound hold the proofs about any request, PortSteps and PortCommand those about printed ones.
--   PortUid: the names of ports, of cmd_parser.c and cmd_utils.c. MacAddr:
--     `sppwk_convert_mac_str_to_int64` of cmd_utils.c. CString: the functions of the C library on
--     strings that these use.
--   Mirror: spp_mirror, src/mirror/spp_mirror.c, with shallow copies. Mirror/Command and Mirror/Flush:
--     src/mirror/mir_cmd_runner.c and the flush of a change (`flush_cmd` of cmd_runner.c with the
--     functions of cmd_utils.c that it calls); the PMDs that create ports are parameters. Update, Refs,
--     Proc, Counts, PortCounts, Room, Flushed, Kept and Exec hold the proofs.
--   StringBuffer: src/shared/secondary/string_buffer.c.
--   Tests: concrete runs.
--
-- State is passed explicitly. Loops are structural recursion on the number of rounds left; only
-- the loop that doubles the capacity of a message buffer has fuel, one round more than bytes are
-- required, which is enough since each round adds at least one. The waits of the main thread are
-- split at the wait, and the theorems on an update speak of the part before it, one call of the
-- thread, and the part behind it. Counters of 64 bits wrap around. The sizes of the DPDK
-- configuration (RTE_MAX_ETHPORTS, RTE_MAX_LCORE, RTE_MAX_QUEUES_PER_PORT) are parameters. Logging
-- is left out.
--
-- Arrays of a fixed size. An array is a function with its size beside it: `size` of a `Column` is that
-- of `g_port_mng_info`, `rx_list` and `tx_list`, `nof_ports` and `nof_queues` of `MngData` those of the
-- arrays of interfaces, and `update_forwarder` takes that of `ports` of a path. A pointer to an
-- interface is its key, `PortIdx`, which `get_sppwk_port` computes without a test; `in_arrays` tells
-- whether it is one of an entry. An access outside an array, through NULL, or by the number -1 of a
-- port without ethdev port, is undefined behaviour: `none`, or `crash` where `none` is an error code.
-- Only the RX bursts of spp_vf hand such a -1 on to the driver of the interface Ethdev, as the port
-- 65535 that it is as `uint16_t`.
--
-- Not modelled: the start-up of the processes, sockets, JSON responses, spp_pcap, the flow rules
-- of spp_primary, the pipe driver and the creation of ports;
-- and of the modelled files the functions that only format or print the state.
pub mod Base
pub mod Ethdev
pub mod PortManager
pub mod BasicForwarder
pub mod WorkerTypes
pub mod Capability
pub mod Vlan
pub mod Forwarder
pub mod Classifier
pub mod ClsWorker
pub mod Manager
pub mod StringBuffer
pub mod Lcore
pub mod CmdRunner
pub mod ManagerInit
pub mod VfCommand
pub mod Flush
pub mod VfComponent
pub mod VfClsTable
pub mod CString
pub mod PortUid
pub mod MacAddr
pub mod CmdParser
pub mod Mirror
pub mod Nfv
pub mod Tests
