-- ===== src/Lib.antt =====
-- sentnodes-agent: a Go program that runs beside a dVPN node. It enrolls with a server, polls it for
-- commands, edits the node's config.toml, restarts the node's container, and signs withdrawals from
-- the operator's account on the chain. What the server sends is not trusted.
--
-- The parts, with the files under internal/ and the modules that model them:
--   bech32/bech32.go   Bech32    IsValid, Encode, convertBits, polymod: is_valid, encode, ...
--   chain/chain.go     Protobuf  pb (the writer) and pbScan, pbBytesField, pbVarintField (the reader)
--                      Chain     BuildSignedSend: build_signed_send, with its parts as functions
--                      Chain.Client  New, Account, Balance, Broadcast, abciQuery, call: call,
--                                query_account, query_balance, broadcast_tx
--                      Chain.Client.Texts  the texts of its errors
--   keys/keys.go       Keys      Identity, Account, pbBytes and extractPrivKey: pb_bytes,
--                                extract_priv_key
--                      Keys.Open  Open and Sign: open_key
--                      Keys.Texts  the texts of its errors
--   api/client.go      Api       do and the calls of the server: do_request, challenge, register, poll
--   wire/wire.go       Api, Metrics, Runner.Finish, Runner.Poll, Runner.Loop  the shapes that these use
--   metrics/metrics.go Metrics   Collect and HostID: collect, read_host_id
--   check/check.go     Check     Signals
--   dockerx/dockerx.go Docker    New, Discover, Inspect, Restart, Stats: new_docker, discover,
--                                inspect, restart_container, stats
--   config/config.go   Config    Load and NodeConfigSnapshot: load, node_config_snapshot
--   exec/exec.go       Exec.Withdraw  Withdraw with its fee and its log: withdraw
--                      Exec.Withdraw.Texts  the texts of its errors, and p2p
--                      Exec.Withdraw.Wired  Withdraw with keys and chain in place: withdraw_wired
--                      Exec.Toml      surgicalEdit, setKeyInTable, tomlString: surgical_edit,
--                                     set_key_in_table, toml_string
--                      Exec.Edit      applyConfigEdit, atomicWrite and the four Edit functions:
--                                     apply_config_edit, atomic_write, edit_prices, ...
--                      Exec.Status    Status
--   runner/runner.go   Runner.Limits  the checks of Run on the withdrawal settings: enforce_limits
--                      Runner.State   readState, writeState: read_state, write_state
--                      Runner.Poll    pollOnce behind a poll that succeeds: run_batch
--                      Runner.Handlers  applyConfig, execute, restartNode, toUint, toStrings
--                      Runner.Enroll  enroll, ensureEnrolled, reenroll, refreshIdentity
--                      Runner.Enroll.Wired  openSigner, and an attempt with keys and api in place
--                      Runner.Finish  finish: finish
--                      Runner.Measure  sendMetrics: metrics_of, measure
--                      Runner.Start   Run up to the loop: start
--                      Runner.Loop    pollOnce as a whole, heartbeat, loop: poll_once, loop
--                      Runner.Loop.Wired  the handlers of the loop with exec's parts in place: wired
--                      Runner.Program  Run as a whole, on Load and with all parts in place: run
--                      Runner.Watch   watchEvents, with Events of dockerx: watch_events
--   Base               lists, bits, and Go's strings with the functions of package strings
--   Decimal            strconv.FormatUint and ParseUint in base 10
--   Float              the float64 operations that the program calls, as a record
--   Examples           concrete runs
-- config.Config is the record that the runner passes to exec.Withdraw; Withdraw asks keys for the
-- signer and chain for the balance, builds the transaction with BuildSignedSend and broadcasts it.
-- The key comes from a keyring record by extractPrivKey, and config.Load reads the file that
-- setKeyInTable edits. Run raises the limits of the Config before any command runs. The batch of a poll
-- is modelled over an interface, the record Handlers of what applyConfig, execute and restartNode do;
-- Runner.Handlers fills it with the models of exec.
--
-- State is explicit: a withdrawal takes the text of its log and returns the log that it leaves, with
-- the transactions that it broadcast; the scan threads the state of its callback; an edit maps a text
-- to a text; a poll returns its events in order. Errors are values of a data type for each part, and
-- a run-time panic is an outcome of its own. The watch of the container's events is a machine whose
-- inputs are the steps of the goroutines. A uint64 is a number with its wrap-around written out
-- (% 2 ^ 64); the positions of the two protobuf readers wrap at 64 bits where a length is added.
--
-- Fuel: take_groups has as many rounds as there are bits, and each round takes five off; the scans
-- have as many as the buffer has bytes, and each record takes a byte at least. put_loop recurs on
-- accessibility.
--
-- What is outside the program is a parameter: the environment, the files, go-toml, HTTP, encoding/json,
-- base64, float64, the keyring and the cryptography, and the answers of the chain, of the server and of
-- Docker. The attempts of an enrollment and the turns of the loop are lists, in the order in which they
-- are taken; a list that ends without success is a context that is cancelled. ToLower is modelled on
-- ASCII text, and filepath.Join on a clean directory. The clients read bodies up to
-- the source's limits.
--
-- A part that calls another is modelled twice where that matters: over the answers of the other, and with
-- the other in place. Withdraw is withdraw over a record of answers and withdraw_wired with Open, Balance,
-- Account and Broadcast; the loop runs over any surroundings and over those of wired. Enroll takes its attempts
-- as arguments, and attempt_of makes one of the keyring and the server's client. A panic ends the program:
-- withdraw_wired has it as an outcome, and the loop over wired goes on with a value in its place, so that its
-- runs include those that a panic cuts short.
--
-- Not modelled: the lengths of time of the timers; fileReadable and dirWritable, whose answers are
-- arguments of start; the transport of HTTP; Wipe, which clears memory; main, which calls Run.
pub mod Base
pub mod Bech32
pub mod Protobuf
pub mod Decimal
pub mod Keys
pub mod Chain
pub mod Float
pub mod Config
pub mod Exec
pub mod Api
pub mod Check
pub mod Docker
pub mod Runner
pub mod Examples
pub mod Metrics
