-- ===== src/Lib.antt =====
-- A verification library for go-core-lab.
--
-- The program captures bytes from the network, from serial lines and from files, and makes sense of
-- them. internal/pipeline connects sources to sinks by a pool of workers; each worker calls the
-- dissector and the filter of internal/net; the sinks count, keep and record what comes out, the
-- last through the pcap files of pkg/export; internal/hw cuts serial streams into frames; and
-- internal/binary takes bytecode files and ELF files apart. The library has a module for each
-- of those parts.
--
-- - Common: the names shared by all files. Common/Slices has byte slices with Go's bounds checks
--   (an index or a slice expression out of range is the result `panic`) and the fixed-width integers
--   of encoding/binary; Common/Streams has bytes.Reader with io.ReadFull, binary.Read and Seek;
--   Common/Outcome has the result of a Go call; Common/Fields and Formats have records of integers
--   and tables of them, Common/Safety has calls that do not panic.
-- - Pcap: pkg/export/pcap.go. NewPcapWriter, WritePacket, NewPcapReader and NextPacket are
--   new_pcap_writer, write_packet, new_pcap_reader and next_packet. The output is an abstract state
--   with a `Write` that may fail; the input is a byte reader. OpenPcap only opens a file.
-- - Net/Types, Net/Dissect: internal/net/types.go and dissect.go. dissect_with_timestamp and the
--   dissectors below it return the packet filled in so far beside an error, as the code does.
--   Net/Dissect/Fields, Layers and Network describe the outcome without bounds checks, and the other
--   files draw from that description. Packet.Summary is not modelled.
-- - Net/HexDump: FormatHexDump of internal/net/dissect.go, line by line, with as much fuel as there
--   are bytes; Net/HexDump/Undump reads the text of a line back.
-- - Net/Filter: internal/net/filter.go, with net.IP.Equal and net.IPNet.Contains of the standard
--   library; the parsers of addresses are parameters of new_packet_filter.
-- - Hw/Serial: internal/hw/serial.go, the frame reader. The stream is the list of chunks that its
--   `Read` will return, so that read_next_frame recurses on that list. SerialMonitor is not modelled.
-- - Pipeline/Types, RingBuffer, Stats: internal/pipeline/types.go and the sinks of sinks.go. The
--   calls of a sink are steps one after the other: RingBufferSink holds a lock, and each counter of
--   StatsSink is one atomic operation. The rates of Snapshot are not modelled.
-- - Pipeline/Engine: internal/pipeline/engine.go. The dispatcher and the workers are a step relation,
--   so that every interleaving of the goroutines is a sequence of steps; a dissection that panics has
--   no step, since it ends the program. Sinks that are added, and closing sinks, are not modelled.
-- - Pipeline/Recording: PcapSink of sinks.go and PcapReplaySource of sources.go. The replay loop runs
--   on fuel, one more than the bytes left in the file: a packet takes at least its header of 16. How
--   it ends is in its result, and Pipeline/Recording/Ends shows that the fuel lasts on every file.
-- - Flx: internal/binary/flx. Flx/Table and Flx/Disasm are the instruction table and Disassemble,
--   whose loop runs on as much fuel as the bytecode has bytes: an instruction takes at least one.
--   Flx/Pool is DecodePool, and Flx/Container is ParseReader. Formatted text is data here.
--
-- - Elf: internal/binary, elf.go, elf_segments.go, elf_symbols.go and architecture_scanner.go.
--   parse_elf_reader is ParseELFReader over a byte reader, from Elf/Header, Sections, Segments and
--   Symbols. What the runtime can allocate is the parameter `limit`: `make` of a size that the file
--   states panics beyond it, whatever the platform's limit below 2^63 is; a Symbol takes 80 bytes, as
--   on a platform of 64 bits. Elf/Names has the names that
--   are shown; the Layout and Table files below a part describe the format of ELF it reads.
--
-- - Report: pkg/report. Report/HexDump is HexDump, whose text is a list of pieces and whose loop over
--   the rows has as much fuel as there are bytes; Report/Table is Table.Render, line by line.
-- - Mmap: internal/mmap, with the system calls as parameters.
-- - BufferPool: pkg/pool. A sync.Pool hands out any of its buffers or a new one.
--
-- - Jsonl: pkg/export/jsonl.go and internal/pipeline/jsonl_sink.go, with json.Marshal, the buffered
--   writer and the text of addresses, times and errors as parameters; Net/Names has the names of
--   internal/net/types.go.
--
-- Not modelled are raw sockets and sysfs, which are calls of the operating system, the command line
-- tools, and the terminal dashboard.
pub mod Common
pub mod Pcap
pub mod Net
pub mod Hw
pub mod BufferPool
pub mod Elf
pub mod Flx
pub mod Jsonl
pub mod Mmap
pub mod Pipeline
pub mod Report
