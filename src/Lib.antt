-- ===== src/Lib.antt =====
-- hash256-miner: the mining client of the HASH256 contract, its Go part under internal/.
--
-- The program polls the contract for the difficulty, the epoch and a challenge, hands each account's
-- challenge to a worker process, checks the nonces that the workers report, and submits them in
-- transactions through RPC endpoints with failover. Keys come from a keystore file or from an
-- encrypted mnemonic. The files follow this:
--
-- - Base, Std: results, errors and state passing (`Exec`), lists and texts over the native numbers;
--   encoding/hex, the big-endian bytes of a big.Int, `copy`, decimal texts and bitwise operations.
-- - Config: internal/config/config.go. `load` is Load, `apply_defaults` is applyDefaults.
-- - Wallet: internal/wallet. Crypto is crypto.go, Hd is hd.go, Keystore is keystore.go, MnemonicStore is
--   mnemonic_store.go, Passphrase is passphrase.go, Manager is wallet.go. Keys that Wipe clears are
--   cells of a heap, since accounts hold pointers.
-- - Chain: internal/chain. Rpc is what it takes from go-ethereum; Client and Client/Calls are client.go,
--   Abi is abi.go, Reader is reader.go, Submitter is submitter.go. A Client is a cell of a store, because
--   the reader and the submitter may hold the same one. Client/Quiet and Client/Attempts have what an
--   observer of the world sees of a call with failover.
-- - Orchestrator: internal/orchestrator. Codec is helpers.go; Protocol, Events and Process are worker.go:
--   the messages, the event channel, and the process behind its pipes with readEvents; Process/Hosted
--   fills the interface Host, which the engine uses, with these processes. Engine, Found,
--   Loop, Run, Spawn and Stats are engine.go. Engine has the state and the steps, Found is onFound with
--   verifyLocal, Loop has the rounds of handleWorkerEvents, spawnWorkers and watchTx, Run is Run on the
--   wakes of its tickers with the panic of NewTicker, and Stats has logHashrate and the shortened texts. Loop/Ledger is the abstract
--   view of the submitted keys. Two step relations have the goroutines: Spawn for the two receivers of a
--   new worker's events, Found/Crew for the calls of onFound in the goroutines of several workers. An
--   observer is a function of the world that grows by each command to a worker (Engine/Seen) or by each
--   transaction that is handed to a node (Found/Payments), and that no other call changes (Engine/Unseen).
-- - Log: internal/logx/logx.go. `logf` is logf; the output is the text written so far.
-- - Cli: internal/cli. Machine is what the commands take from elsewhere and their shared steps, Mine is
--   mine.go, Prompt, Setup and Balance are wallet.go. The commands put the parts above together:
--   `run_mine_start` loads Config, unlocks a Wallet, builds the clients of Chain and runs the Orchestrator.
--   Signals is signalContext of mine.go with its goroutine. Command is the part of cobra that is used, and
--   Root is root.go with the constructors of the commands: `execute` is Execute.
-- - Examples: the theorems at concrete nodes, contracts, workers, files and terminals.
--
-- Go's `(T, error)` is `Result`, whose third constructor is a panic; an error keeps its format and the
-- error that it wraps, and not the printed arguments. An int is ℤ, a uint64, a wei amount and a byte
-- are ℕ, int32 and uint32 wrap with `% 2 ^ 32`, and a nil pointer is `none`. float64 is the parameter
-- `Float64`. Goroutines that wait on a channel are sequences of the events that reach them.
--
-- Loops end by construction: the loops over endpoints, accounts, events and slots recurse on the list
-- or on the number of rounds that the source's bound gives, so no fuel is chosen beside it; the wakes of
-- watchTx are a list, which ends at the deadline, and those of Run are a list, which ends when the context
-- is done. The digits of a number and the padding of shortDiff recurse on fuel: the number itself, and the
-- 64 digits that can be missing. askChoice reads the lines of the standard input, which are a list too;
-- a partial last line fails like the end of the input.
--
-- Not modelled: cmd, which only calls Execute; what the commands print, which is left out or returned; the
-- log lines inside the operations; workersMu, and the interleavings inside a handler beside those of the
-- step relations; the Rust core in miner-core. How cobra reads the command line is a parameter.
-- Cryptography, JSON, TOML, BIP32, BIP39, the ABI library, the RPC library, the formatting of floats and
-- the operating system are parameters. A float is taken to be finite, and white space is that of ASCII.
pub mod Base
pub mod Std
pub mod Config
pub mod Wallet
pub mod Chain
pub mod Orchestrator
pub mod Log
pub mod Cli
pub mod Examples
