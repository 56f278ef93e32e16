-- ===== src/Lib.antt =====
-- The Substrate node template: its three pallets, the runtime that is composed of them and signs
-- their transactions, and the node: its commands, its services and the chains that it comes with.
--
-- The parts and how they interact. A block of the chain carries transactions. A signed one reaches a
-- call of a pallet with the signer as its origin; an unsigned one is first put to
-- `validate_unsigned` of the pallet. After a block is imported, the node runs the off-chain worker
-- of each pallet, which reads the chain's state, fetches data over HTTP and submits transactions to
-- the pool, from where they reach the calls of the same pallet in a later block. The runtime hands a
-- call to its pallet and an unsigned one to the pallet's validation. The node's program, without a
-- subcommand, builds a light or a full node. A full one generates the keys that the off-chain
-- workers sign with and sets up authoring, finality and the workers as configured; a light one
-- observes finality and never authors. Both start the network last. Most subcommands only build the
-- parts of a full node, if any, and hand them to the library.
--
-- Which file models which part:
--   Template, .Calls        pallets/template/src/lib.rs: `do_something`, `cause_error`; their dispatch
--   Template.Benchmarking   pallets/template/src/benchmarking.rs
--   Ocw.*                   pallets/ocw/src/lib.rs: Types (storage, calls, events, errors, constants),
--                           Numbers (`append_or_replace_number`), Calls (the dispatchables), Validity
--                           (`validate_unsigned`), Fetch (`fetch_remote_info`, `fetch_n_parse`,
--                           `fetch_from_remote`; Fetch/Concurrent is runs of it that interleave),
--                           Json (`HackerNewsInfo` read from JSON, `de_string_to_bytes`), Worker
--                           (`offchain_worker` and its other three jobs)
--   ExampleOcw.*            pallets/example-offchain-worker/src/lib.rs: Types, Prices (`add_price`,
--                           `average_price`), Calls, Validity (`validate_unsigned`,
--                           `validate_transaction_parameters`), Parse (`parse_price`), Fetch
--                           (`fetch_price`), Worker (`choose_transaction_type`, the four functions
--                           that fetch a price and send it, `offchain_worker`); Chain is the pallet
--                           on a chain of blocks and transactions
--   Runtime.*               runtime/src/lib.rs: the constants, the version, the configuration of the oracle
--                           pallet, two functions of `GrandpaApi`; Transaction (`create_transaction`), Pallets
--                           (`construct_runtime!`, for the three pallets), Chain (a chain of the
--                           runtime, of blocks and transactions), Whole (`construct_runtime!` with
--                           Sudo and the other library pallets, and a chain of that), Offchain
--                           (`OffchainWorkerApi`: the workers of both pallets for a block, and the
--                           node beside the chain),
--                           Benchmarks (`benchmark_metadata`, `dispatch_benchmark`)
--   Node.ChainSpec          node/src/chain_spec.rs: the development and the local chain, their genesis
--   Node.Service.*          node/src/service.rs: Partial (`new_partial`), Full (`new_full`), Light
--                           (`new_light`), over the library calls of Types; Plan is what they are
--                           compared with, Expected the tasks that they are meant to leave
--   Node.Rpc                node/src/rpc.rs: `create_full`
--   Node.Command.*          node/src/command.rs and node/src/cli.rs: `run` and the subcommands, Spec
--                           (`load_spec`), About (the texts about the program)
--   Frame, Offchain         the interfaces of the libraries that the pallets call
--   Common                  numbers, lists, results and a monad of runs
--   Tests                   stand-ins for the libraries, runs, and the theorems at concrete inputs
-- The child modules of a part hold its proofs and are named for what they prove.
--
-- The correspondence. The storage items of a pallet, the current block number that it reads from
-- frame_system and the events that it has deposited are one record `State`. A dispatchable is a
-- function from an origin, its arguments and a state to a `Dispatch`: done, failed with the state
-- at that point, or a panic. A worker is a `Run`: from a world it goes to a result and a world, or
-- panics (`none`); it reads the chain's state and does not write it. Early returns by `?` are the
-- bind of that monad. Integers are natural numbers with the wrap of a release build written out:
-- u32 sums and products in `parse_price`, `10_u64.pow`, casts by `as`, sums of block numbers, which
-- have `block_values` values. Saturating and checked operations are as in the source. No definition
-- runs on fuel: every loop of the source is over a list.
--
-- What is a parameter. FRAME (`System`: origins and accounts), the host of the off-chain workers
-- (`Host`: time and HTTP), the local storage (`MutableStorage`, `InfoStorage`), the signer and the
-- transaction pool (`Submitter`), lite_json (`LiteJson`), serde_json (`Serde`; the worker takes
-- what it reads of a text as `from_json`), the verification of signed payloads (`verify`), the
-- parts of an extrinsic (`Extrinsics`), key pairs (`Keys`) and the macros of frame_benchmarking
-- (`Benchmarking`), Sudo and the other pallets of the runtime (`Library`). What the two workers
-- take from the node is one `Environment`; the order in which their hooks run is the library's, and
-- an argument. A worker submits calls of its pallet, signed or unsigned, and the pool holds
-- transactions, signed or unsigned (`Submitted`), with calls of the runtime: `embed` stands for
-- `call.into()`, and for `OcwDemo` and `OcwExample` in the runtime. What their documentation
-- promises is stated in `IsLawful`, `MutateOutcome`, `HostLaws`, `SubmitterLaws`, `StorageLaws`,
-- `InfoLaws`, `LockLaws`, `EscapeLaws`, `EnvironmentLaws`, `LibraryLaws` and `BenchmarkLaws`, which
-- theorems take as hypotheses. The libraries that the node wires together are a `Platform` and
-- `Tools`: a service is a sequence of calls, kept in a history, and the platform says of each call
-- that may fail how it ends, which may depend on all calls before it. `HasShortAnswers` is about
-- the bodies of the host's responses only. `HasNoRawWrites` says of a chain that no raw call of the
-- System pallet, such as `set_storage`, is dispatched as root under Sudo: such a call is part of
-- the relation, and may leave any storage behind. `InfoLaws` speaks of one run at a time: no other
-- worker writes to the key meanwhile; runs that interleave are a relation of their own
-- (Ocw/Fetch/Concurrent), over a lock that expires (`LockView`). UTF-8 decoding is the standard
-- library's, and is written out (Common/Utf8).
--
-- What is not modelled: log lines and values that only they show (the parent hash and the average
-- before a run of the oracle's worker), weights, encodings, what the library pallets of the runtime
-- do with their own storage, and the `Config` implementations and APIs of the runtime that only
-- name library types and forward to the libraries (`Executive` among them; what it does with a
-- block is the relation `Run`, as far as the three pallets go, and `WholeRun`). Forks of the chain
-- are not modelled. Of the node, handles that are only passed from one library call to the next,
-- the closures that give inherent data, the settings of the libraries that the code does not decide
-- on, and what a task does once it is spawned. The tests of the pallets and the build scripts are
-- left out.
pub mod Common
pub mod Frame
pub mod Offchain
pub mod Template
pub mod Ocw
pub mod ExampleOcw
pub mod Runtime
pub mod Node
pub mod Tests
