-- ===== src/Lib.antt =====
-- FluxGuard: a DDoS filter whose packet program runs in the kernel (XDP), with Python programs
-- around it that talk to it through BPF maps only. This library models both.
--
-- The parts and their files. src/fluxguard_kern.c is the packet filter, which puts a source that
-- sends too much on the blacklist, drops what the blacklist has, and lets the allowlist through:
-- Filter for one packet, with its token buckets in Filter/Bucket, and Filter/Runs for packets in
-- a row, which Filter/Shields, Filter/Overload and Filter/Calm are about. src/fluxguard_bpf.py
-- wraps the bpf(2) system call: Bpf. Its address conversions call Python's `ipaddress`, for which
-- Address has the interface and, for IPv4, an implementation. src/fluxguard_brain.py polls the
-- maps, keeps the table of blocked addresses with their times, unblocks what is over, and saves
-- the table: Brain, with Brain/State (its arguments, variables and the world it writes to),
-- Brain/Kernel (the reads), Brain/Detect, Brain/Expire, Brain/Tick (a round, the loop, the pause)
-- and Brain/Startup (before the loop, and `main`). Brain/Blocks is what one address goes through,
-- as a machine of its own; Brain/Tick/Turns is the loop with what the packet filter and the other
-- programs do to the maps between its rounds, and Brain/Tick/Defended puts the model of the
-- filter there. src/fluxguard_metrics.py holds the counters and renders them for Prometheus:
-- Metrics, with the HTTP handler in Metrics/Server. src/fluxguard_dashboard.py fetches and reads
-- that text, drains the kernel's ring buffer of events, and shows both: Dashboard, with
-- Dashboard/Fetch, Dashboard/Scrape, Dashboard/Ring (`drain_ringbuf`) and Dashboard/Live
-- (`open_ringbuf`, `render` and the loop of `main`). src/fluxguard_allow.py edits the allowlists
-- from the command line: Allow. src/fluxguard_api.py does the same over HTTP: Api, with what it
-- does at its import, the other views and the dispatch in Api/Startup; the values of JSON that it
-- meets are those of Config, and Config/Python says which are falsy. src/fluxguard_config.py has
-- the settings, which the API server reads: Config. scripts/dump_codebase.py writes the files of
-- the repository into one text: Dump. Base has what they share: texts as lists of character
-- codes, Python's dict as an association list in insertion order, numbers, and calls that change
-- a state and may raise.
--
-- State and errors. A call of the program is a function from the state to a result and a state;
-- what was written before an exception stays written. `OSError`, `ValueError` and other
-- exceptions are told apart, since the handlers tell them apart.
--
-- What is a parameter. The kernel is the record Bpf of the commands the program issues, on an
-- unknown state that every command may change, and for the filter the record Helpers of the BPF
-- helpers it calls, of which Filter/Verdicts, Filter/Shields and Filter/Calm say what is
-- documented. Bpf/Laws says what is documented of the hash maps behind it; theorems that need
-- that name it. The checkpoint file, IPv6 texts and, in Brain, the IPv4 texts too are the record
-- Platform, and so are the errors of the log file and the float arithmetic of the pause, whose
-- lengths are multiples of the least positive float. The mapped ring is a function from offsets
-- to bytes, in pages of 4096; `mmap`, `urlopen`, UTF-8, the files and `json` are arguments. All
-- other times are numbers of nanoseconds.
--
-- Fuel. A dump follows the kernel's order of keys, in a loop that a changing map can keep alive;
-- here it has fuel, and as many rounds as the map has entries are enough while no one else writes
-- (Bpf/Dump); Brain/Tick/Returns says what that asks of the kernel, for the loop. The pause has
-- 12 rounds: it lasts at most a second in chunks of a tenth, which are ten, or eleven where a
-- float subtraction leaves a rest, and one round more sees that nothing is left
-- (Brain/Tick/Loop). The loop of `monitor` has one round more than there are polls of the
-- shutdown event before the one that sees it set (Brain/Startup/Looped). The drain has a round
-- for each byte between the consumer and the producer, and one more, since each round that goes
-- on moves the consumer by at least 8 (Dashboard/Ring/Laws).
--
-- Not modelled: printing, argument parsing, the sockets and threads of the HTTP server, the
-- colours and the layout of the terminal, the load test, the test cases and the shell scripts;
-- and what two CPUs do at once to a bucket or a counter of the filter.
pub mod Base
pub mod Address
pub mod Bpf
pub mod Metrics
pub mod Dashboard
pub mod Brain
pub mod Config
pub mod Dump
pub mod Filter
pub mod Allow
pub mod Api
mod Tests
