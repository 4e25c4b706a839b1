-- ===== src/Lib.antt =====
-- The PCIe exerciser of this repository: gateware in Migen that generates and observes PCIe
-- transactions for compliance tests, and the host's parser of the monitor stream. The parts
-- modelled here are the endpoint's routing of requests and completions by BAR, the registers of
-- BAR 0, the extended configuration space, the PASID prefix injector, the DMA engine with its
-- buffer and the host's window on it, address translation (the translation cache, the request
-- engine and the invalidation handler, wired as in the SoC), the MSI-X table with its
-- controller, the INTx controller, the transaction monitor, the USB core's link layer, and the
-- USB monitor: taps, capture engines, header layouts, FIFOs and arbiter on the gateware's side,
-- and the parser of the stream and the receiver of its datagrams on the host's; moreover the
-- test benches' builder of TLPs.
--
-- How the parts interact. The dispatcher gives each request to the handler of its BAR, and the
-- arbiters collect completions and master requests for the packetizer, whose stream passes the
-- prefix injector and meets the raw messages in front of the PHY. The registers trigger the DMA
-- engine and the request engine. The request engine sends a translation request and presents its
-- result in one cycle; the SoC stores it in the cache, where the DMA engine looks its address
-- up. An invalidation message makes the handler compare the requested page with the cache's
-- entry; it asks the engine for a retry or clears the entry, and answers with a completion
-- message. The MSI-X controller reads a vector's entry from the table that the host writes, and
-- sends its message or sets its pending bit. Both monitors tap the request stream. The
-- transaction monitor keeps entries of five words that software reads through a register. The
-- USB monitor writes a header of four 64-bit words and the payload of each packet into FIFOs,
-- which the arbiter joins to one stream of framed packets; the USB core's packetizer puts a
-- preamble, the channel and the length in front of each, and the host finds the frames and
-- parses the packets. In the other direction the depacketizer finds the packets of the host, and
-- the crossbar gives each to the user of its channel.
--
-- Files. Paths are those of the repository; gateware/ is short for
-- src/bsa_pcie_exerciser/gateware/.
--   Prelude           names of the libraries, Boolean tests, lists, bit fields; `run`, which
--                     folds a module's `step` over its inputs
--   Ats.Atc           gateware/ats/atc.py, the class ATC
--   Ats.Engine        gateware/ats/engine.py, the class ATSEngine
--   Ats.Invalidation  gateware/ats/invalidation.py, the class ATSInvalidationHandler
--   Ats.System        gateware/soc/base.py, the section that joins these three
--   Endpoint          gateware/core/bar_routing.py and core/multibar_endpoint.py: Dispatcher,
--                     Completions and Masters with what they share in Grants, Stub, and RawTx,
--                     the arbiter in front of the PHY
--   Registers         gateware/core/bsa_registers.py, the class BSARegisters: Offsets the register
--                     map, Interface the signals to the other modules
--   Config            gateware/config/pcie_config.py, the class BSAConfigSpace
--   Pasid             gateware/pasid/prefix_injector.py, the class PASIDPrefixInjector
--   Dma.Engine        gateware/dma/engine.py, the class BSADMAEngine
--   Dma.Channel       gateware/dma/buffer.py, port A, together with the engine
--   Dma.Window        gateware/dma/handler.py, the class BSADMABufferHandler, with port B of
--                     gateware/dma/buffer.py
--   Msix.Table, Pba   gateware/msix/table.py, the classes LitePCIeMSIXTable and LitePCIeMSIXPBA
--   Msix.Controller   gateware/msix/controller.py, the class LitePCIeMSIXController, with both
--   Msix.Trigger      gateware/msix/controller.py, the class LitePCIeMSITrigger
--   Intx              gateware/core/intx_controller.py, the class INTxController
--   Monitor           gateware/monitor/txn_monitor.py, the class TransactionMonitor
--   Usb.Capture       gateware/usb/monitor/capture.py, the class TLPCaptureEngine
--   Usb.Layouts       gateware/usb/monitor/layouts.py, the build_header functions
--   Usb.Arbiter       gateware/usb/monitor/arbiter.py, the class MonitorPacketArbiter
--   Usb.Fifo          gateware/usb/monitor/fifo.py, the class MonitorFIFO
--   Usb.Taps, Top     gateware/usb/monitor/top.py, the class USBMonitorSubsystem
--   Usb.Packetizer, Depacketizer, Crossbar
--                     gateware/usb/core.py, with Usb.Streams, the stream library's blocks
--   Soc               gateware/soc/base.py: registers, configuration space, DMA engine, address
--                     translation, MSI-X, transaction monitor and INTx wired together; Signals
--                     what comes from outside, Faults the error reports
--   Protocol          src/bsa_pcie_exerciser/common/protocol.py, parse_tlp_header,
--                     parse_tlp_packet, find_usb_frame and parse_stream
--   Tools.Capture     src/bsa_pcie_exerciser/tools/capture.py, find_packet and the class
--                     MonitorCapture
--   Tlp               tbench/common/tlp_builder.py, the class TLPBuilder: the builders, and in
--                     Tlp.Extract the extractions
--   Tests             the theorems at concrete inputs
-- The children of a module hold its properties: Ats.Atc.Lookup what a lookup answers,
-- Ats.Engine.Answer and Limits the course of a request and its bounds,
-- Ats.Invalidation.Decision, Reach and Message what a request causes and how it is answered,
-- Ats.System.Translate a whole translation, Monitor.Entry an entry, Usb.Arbiter.Framing and
-- Payload the output stream and the FIFO, Usb.Capture.Packet and Stats a packet and the
-- counters, Protocol.Roundtrip, Payload, Frames and Stream the parser from a header up to a
-- stream. Dma.Write, Finish, Read and Store are the two directions of a transfer, Msix.Fire what
-- follows when a vector fires and Msix.Words and Host the accesses of the host to the table,
-- Intx.Handshake the messages to the PHY. Endpoint.Dispatcher.Routing is about the BAR that a
-- packet reaches, Grants.Whole, Completions.Order and Masters.Scan and Turns about packets and
-- turns at an arbiter, Stub.Answers and RawTx.Unbroken about the streams of the other two;
-- Registers.Plain about reads after writes, Registers.Edges and Pulses about the triggers;
-- Config.Chain and Inject about the list of capabilities and the error injection; Pasid.Tokens
-- and Packets about the DWORDs of a stream; Tlp.Fields, Requests, Prefixed and Translated about
-- what is extracted from built TLPs, from the injector's output and by the request engine;
-- Dma.Window.Host and Bytes about the host's accesses to the buffer; Monitor.Fifo, Log, Words
-- and Reads about the ring of captures and the words that are read out of it.
-- Usb.Packetizer.Sent, Depacketizer.Given and Timeout are about either end of the USB link,
-- Usb.Link and Usb.Host about both ends and about the host's parser behind; Usb.Fifo.Words and
-- Order and Usb.Top.Halves and Passing about the words between capture and arbiter; Soc.Runs,
-- Transfers, Trace and Gate about the start of a transfer, the trace read through the bus, and
-- translation that is not enabled; Tools.Capture.Frames, Splits and Total about datagrams of
-- whole frames, a frame in two datagrams, and any bytes.
--
-- How a Migen module is modelled. Its registers are a record, its input signals in one clock
-- cycle a record `Inputs`, and `step` is one cycle: a sync assignment reads the registers before
-- the cycle, and a later assignment wins over an earlier one. An FSM is a data type of states, a
-- function for each state with an `fsm.act` of some length, and `dispatch`, which selects it. A
-- comb signal is a function of registers and inputs. A 1-bit signal is a Bool; a wider one is a
-- natural number, with the truncation of an assignment written out, as Migen expressions have
-- full precision until they are assigned. A test `x == y - 1` is written `x + 1 == y`, since the
-- subtraction does not wrap. Fields that do not overlap are joined by sums. A memory is a
-- function from addresses, and its port has the read register of Migen's Memory; the XPM memory
-- of the synthesis is taken as documented by its parameters in the source: read first, one cycle
-- of latency, holding its output while disabled.
--
-- Bounds and fuel. The data path has 64 bits, the largest request 128 bytes, as in the SoC. The
-- depth of the transaction monitor's ring is a parameter of its section, as are the depth of the
-- payload FIFOs, the cycles of the depacketizer's timer, the number of sources of an arbiter and
-- the first DWORD of the configuration space. A walk of the capabilities has as much fuel as
-- there are capabilities, or more. The receiver's loop over a datagram has one step more than
-- the bytes it holds. The host's search for a frame runs on fuel, one more than the length of
-- the data, as does the loop over the stream; each round moves on by a byte at least, and the
-- theorems on them show that this fuel suffices.
--
-- Blocks of the stream library whose state matters (Unpack, Pack, WaitTimer, SyncFIFO,
-- Converter) are records of operations with the laws that their documentation gives, taken as
-- parameters; Tests.Blocks has a value of each.
--
-- Not modelled: the PHY, litepcie, litex and their crossbar, packetizers and streams, whose
-- signals are inputs of a cycle; the connections of the endpoint; both ports of the buffer at
-- once, and in Soc the buffer and its BAR1 handler; the MSI-X table and pending bits of 16
-- vectors that soc/base.py builds, in whose place Soc has those of the classes' default of 2048,
-- without the aliasing of higher vectors and addresses (no result about Soc depends on them);
-- the USB PHY and Etherbone; the boards and builds; the coroutines of the test benches; the
-- host's tools but the receiver, and the text output of the parser.
pub mod Ats
pub mod Config
pub mod Dma
pub mod Endpoint
pub mod Intx
pub mod Monitor
pub mod Msix
pub mod Pasid
pub mod Prelude
pub mod Protocol
pub mod Registers
pub mod Soc
pub mod Tests
pub mod Tlp
pub mod Tools
pub mod Usb
