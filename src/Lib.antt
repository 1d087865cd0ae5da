-- ===== src/Lib.antt =====
-- Verification of otherhost: the pairing of a Mac with a Windows machine, and the local dashboard.
--
-- The program. `cmd/otherhost-pair` runs one of two sides. On Windows, `RunHost`
-- (internal/pairing/host.go) checks its options, opens a window of 10 seconds to 10 minutes, answers
-- searches (discovery.go) and serves one pairing: a hello, whose two X25519 keys give both devices
-- session keys and a six-digit code (protocol.go), a question to the user, and a confirmation that
-- carries the Mac's SSH key, sealed under those keys. After an approval the key is installed (ssh.go) and
-- the host's SSH key goes back. On the Mac, `Pair` (client.go) runs the other side. `cmd/otherhost-ui`
-- runs the dashboard (internal/dashboard): a handler with projects, their deletions, and terminals, which
-- are reserved by a request, claimed by a web socket and run over ssh.
--
-- The model. Go strings and byte slices are lists of bytes (`Bytes`), lengths and other non-negative
-- numbers the native numbers, an `int` an integer (`ℤ`), times nanoseconds. A function that returns
-- `(value, error)` returns a `Result`, whose fault is one of the package's errors or the HTTP status of
-- the refusal. What a function draws at random, reads from a clock or gets from a system call is an
-- argument. Handlers that lock a mutex are one function for each critical section, and a `World` holds
-- the state and the requests and goroutines that have not returned; an `Event` is one uninterrupted run
-- of one of them, so that a list of events is an interleaving, and `run` follows it.
--
-- The disk of Pairing.Files maps paths to files, and the outcome of each of its system calls is an input,
-- as is the order in which the answers of a search come. The functions of packages that are not in the
-- repository are parameters (the cryptography, JSON, `net.ParseIP`, `strings.ToLower`), but for those of
-- Go's standard library on texts, which are written out. `sort.Slice`, which may order equal elements in
-- any way, is a stable insertion sort. An IPv4 address is its value, a number below 2^32, which stands
-- for its text too, and paths are separated by `/`.
--
-- The files, and what they are about:
--   Base: lists, byte strings, results, Go maps as association lists, positions in lists, lists that
--     differ in their order.
--   Text: what is used of Go's strings, strconv, sort order of strings, unicode/utf8 and encoding/base64,
--     with laws.
--   Pairing.Messages, Transcript, Keys, Names: internal/pairing/protocol.go (`makeTranscript`,
--     `hkdfExpand`, `deriveSessionKeys`, `comparisonCode`, `seal`, `openSealed`, `cleanDeviceName`,
--     `validIdentifier`, `validPort`), and the name checks of ssh.go and config.go.
--   Pairing.Crypto: the functions of Go's crypto packages and of encoding/json, as parameters with the
--     laws that are documented: sizes, that X25519 commutes, that what is sealed is opened to the
--     same text, and that a value whose strings are valid UTF-8 is unmarshalled from what it is marshalled
--     to.
--   Pairing.Ssh, Pairing.Install: internal/pairing/ssh.go (`normalizeEd25519PublicKey`,
--     `installKeyInFile`, `knownHostsLine`).
--   Pairing.Files, Pairing.Config: internal/pairing/config.go (`writeAtomic`, `updateKeyValueFile`,
--     `SaveClientConfiguration`).
--   Pairing.Local, Pairing.Discovery: internal/pairing/discovery.go (`isLocalNetworkIP`,
--     `serveAdvertisements`, `Discover`, `probeDevice`) and `handleDiscovery` of host.go.
--   Pairing.Subnets, Pairing.Probes: internal/pairing/discovery.go (`localSubnetPlan`; what
--     `discoverAtAddresses`, `Discover` and `DiscoverDevices` make of the answers).
--   Pairing.Options: internal/pairing/host.go (`RunHost` up to `net.Listen`, `configureHostCallbacks`).
--   Pairing.Host, Host.Handlers: internal/pairing/host.go (`handleHello`, `handleConfirm`,
--     `handleCancel`, `finish`, `currentSession`, `decodeJSONBody`); Host.World: their interleavings,
--     with the channels `decision` and `done` as options that hold one value.
--   Pairing.Client: internal/pairing/client.go (`Pair`, split at its exchanges with the host);
--     Pairing.Exchange: a client and a host together.
--   Dashboard.Server, Routes, Projects, Terminals, Sockets: internal/dashboard/server.go, terminal_server.go
--     and the sizes of terminal.go; Dashboard.World: their interleavings.
--   Dashboard.Shell: internal/dashboard/terminal.go (`remoteTerminalCommand`, `quotePOSIXShell`).
--   Dashboard.Config: internal/dashboard/config.go (`LoadConfig`, `portableValue`).
--   Dashboard.Report: internal/dashboard/model.go, and `parseRemoteReport` of collector.go.
--   Dashboard.Collector: internal/dashboard/collector.go, project_delete.go and terminal.go (what is run
--     over ssh, and what is made of the way it ends).
--   Commands: cmd/otherhost-pair/main.go (`selectDevice`, `promptYesNo`, `formatCode`,
--     `portableDeviceName`, on the characters that a range over a string gives).
--   The other modules of Pairing and Dashboard prove what their names say; Tests holds concrete runs.
--
-- Loops. Loops over a list or a text are recursions on it. `expand_loop` of Pairing.Keys runs on fuel,
-- one more than the bytes that are wanted: each pass of `hkdfExpand` but the last adds 32 bytes, and the
-- counter is a byte, as in the code. `write_terminal_input` of Dashboard.Sockets runs on fuel, of which
-- the length of the message is enough: each pass takes a byte or more, or is the last. `add_offsets` of
-- Pairing.Subnets counts the offsets that are left, which are two fewer than the addresses of the subnet.
-- Machine integers: the length of a transcript field is taken modulo 2^32, a terminal size modulo 2^16,
-- and the value of an address modulo 2^32, as the code converts them; a number that `strconv.Atoi` reads
-- is one of a 64-bit `int`, or an error.
--
-- Not modelled. The HTTP and UDP servers, sockets and timers (I/O; their requests are the events), with
-- `postJSON`, `multicastInterfaces` and the goroutines that send probes; the WSL commands of ssh.go and
-- the inventory script with its encoding, which other programs run; `VSCodeLauncher`, `OpenBrowser` and
-- `RunServer`, which start processes or listen; flags, messages and demonstration data of cmd; logs; and
-- the shell, PowerShell and browser code.
pub mod Base
pub mod Text
pub mod Pairing
pub mod Commands
mod Tests
pub mod Dashboard
