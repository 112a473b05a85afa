-- ===== src/Lib.antt =====
-- dropline measures packet loss between two hosts: a client sends numbered UDP packets, the
-- server counts what arrives, a control channel over TCP negotiates the session and carries the
-- results, and path probers attribute losses to hops. This library models the parts of the
-- program that decide, count and parse, and proves what makes them correct.
--
-- Parts and files. Stream models internal/stream: Stream/Header the packet header (header.go),
-- Stream/Stats the accumulator of the receiver (stats.go; `observe_seq` is the loss accounting
-- of `Observe`, `update_jitter` its other half), Stream/Hub the demultiplexer of one socket
-- among sessions (hub.go; a datagram is `dispatch`, a handle is `HubFlow`), Stream/Receiver the
-- steps of a receiver in both modes (receiver.go), Stream/Net the standard library's IP
-- addresses, Stream/Sender the sender's loop (sender.go), Stream/KernelDrops the baseline of the
-- drop counter (kerneldrops.go). Control models internal/control: Control/Messages the structs
-- (messages.go), Control/Framing and Control/Codec the frames and the JSON messages in them
-- (framing.go), Control/Server the accept loop and the dispatch of a connection (server.go).
-- Serve models cmd/dropline/serve.go: Serve/Admission what a Hello is checked for and what its
-- preferences come to, Serve/Session the life of a session in the hub, the registry and the
-- slots, Serve/Probe the corroboration probes, Serve/Final the Final. Agg models internal/agg:
-- Agg/State the published records (state.go), Agg/Timeline the per-second buckets, Agg/HopTables
-- the tables of hops and Agg/Aggregator the methods (aggregator.go), Agg/Correlate the
-- correlator and Agg/Merge the merging of its two lists (correlate.go). Probe models
-- internal/probe: Probe/Hops has its snapshots, Probe/HopState the statistics of a hop and the
-- rows of a snapshot (hopstats.go, probe.go), Probe/Parse what an ICMP message answers
-- (parse.go, parse_tcp.go), Probe/Flight what both probers keep under their mutex, Probe/Prober
-- the ICMP prober (probe_unix.go) and Probe/TcpProber the TCP prober (probe_tcp_unix.go). Trace
-- models cmd/dropline/trace.go: Trace/Texts what it uses of the packages strings and strconv,
-- Trace/Args the arguments, Trace/Hello what the client asks of a server and makes of its
-- answer, Trace/Receive its loop over the server's messages, Trace/Report the adapters from the aggregator to a report and Trace/Finish the report that
-- ends a test. Report models internal/report: its data (report.go), Report/Document the JSON
-- document (json.go) and Report/Hints what the text says in words (text.go, and
-- internal/agg/bursts.go). Tui models the state machine of internal/tui/model.go. Prelude has
-- what the parts share, Examples runs them on concrete inputs.
--
-- How they interact. A session registers its flow in the hub and itself in the registry, the hub
-- passes packets on to it behind its token and its address, the accumulator counts them, and its
-- snapshots reach the aggregator, locally and as messages of the control channel; probes are
-- admitted against the registry. At the end the server builds a Final, and the client correlates
-- the timeline with both hop tables, marks the suspects and makes a report of the state.
--
-- Representation. An int64 counter of the stream is its bit pattern with the wrap-around at 2 ^
-- 64 written out; other signed values are integers; times are nanoseconds; float64 operations
-- are a parameter (Prelude/Floats); what a theorem assumes of them is among its hypotheses. A
-- method under a mutex is one function, and concurrency is the order of the calls. A panic is
-- `none`. Buffered channels are lists with a capacity. The models have no fuel: every loop is
-- recursion on a list or a number of the source.
--
-- Bounds. The theorem on the ICMP prober takes at most 65535 probes, behind which its sequence
-- numbers come round. The counting theorems take at most 2 ^ 18 packets, the size at which the
-- source's map of seen numbers stops to grow and duplicates are no longer told apart.
--
-- Not modelled: sockets, contexts and deadlines, encoding/json (a parameter), the layout of the
-- text report, the rendering of the terminal interface, and the platform files.
pub mod Prelude
pub mod Stream
pub mod Control
pub mod Serve
pub mod Agg
pub mod Probe
pub mod Trace
pub mod Report
pub mod Tui
pub mod Examples
