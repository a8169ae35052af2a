-- ===== src/Lib.antt =====
-- soro-fuzz runs sequences of contract commands against a Soroban contract in a test host, and
-- checks invariants after every step. This library models its engine, its ready-made invariants,
-- the three example contracts with the harnesses that wire them into the engine, and its server: the
-- store in which it keeps campaigns and runs, the workers that run them and the HTTP API.
--
-- The parts, and the files that model them:
--   * crates/core/src/auth.rs in Core/Auth.antt: the pool of addresses, whose indices are taken
--     modulo its length, and AddressPool::resolve, the signers of a step.
--   * crates/core/src/command.rs in Core/Command.antt: Outcome, Outcome::from_try_result, Step, Run.
--   * crates/core/src/adapter.rs, model.rs and invariant.rs in Core/Adapter.antt: the traits
--     ContractAdapter and Invariant as records. A call of Command::execute returns an outcome or
--     unwinds (Executed); apply_to_model and setup are none where they panic; a check passes,
--     fails or panics (Check).
--   * crates/core/src/harness.rs in Core/Harness.antt: the builder and Harness::run. A run ends in
--     Ok, in a violation, or in a panic that nothing catches (RunEnd); run_step is one turn of the
--     loop, conclude the part of it behind catch_unwind. Core/Harness/Rule.antt has the rule by
--     which the runs of one contract are treated.
--   * crates/strategies/src in Strategies: the values that commands carry, amounts.rs, time.rs,
--     bytes32.rs and map.rs, with their Arbitrary instances.
--   * crates/invariants/src in Invariants.antt: NoNegativeBalance, SupplyConservation and
--     AuthRequiredForMutation, with the overflow of the sum, which panics.
--   * examples/counter, examples/escrow and examples/token in Examples: X.antt is the contract,
--     src/lib.rs, and X/Harness.antt its adapter, src/harness.rs; Counter/Broken.antt is the broken
--     counter of the tests. A contract function is a program over the contract's storage, a record
--     with a field for each key (Examples/Host.antt); it returns, fails with a declared error, or
--     traps.
--   * crates/server/src/store/model.rs in Server/Store.antt, and store/postgres.rs in Server/Store:
--     the tables as lists of rows (Tables.antt), the methods of PgStore that change them, each one
--     transaction (Operations.antt), and those that only read (Reads.antt). Workers and requests
--     meet only in the database: what they do together is taken as a sequence of whole transactions
--     (Operations/Reachable.antt). Interface.antt is the trait Store of store/mod.rs, and
--     Postgres.antt implements it by the transactions, with those of other clients before each.
--   * crates/server/src/targets.rs in Server/Targets.antt: the manifest and TargetRegistry.
--   * crates/server/src/runner/mod.rs and runner/progress.rs in Server/Runner.antt: what a worker
--     gives to a runner, and what it reports and returns. In Server/Runner, Output.antt reads the
--     output of a process (output.rs), Subprocess.antt is the runner that starts cargo fuzz in a
--     sandbox, with the commands of the two sandboxes (subprocess.rs, sandbox.rs), and Mock.antt the
--     canned runner of the tests (mock.rs).
--   * crates/server/src/config.rs in Server/Config.antt: Config::from_env, with the environment as a
--     function; and main.rs in Server/Start.antt: what is set up before the server listens, the
--     workers of spawn_pool included.
--   * crates/server/src/worker in Server/Worker.antt: process and the rounds of run_loop, on the
--     store's state, the ProgressHub (Worker/Hub.antt) and the list of the events sent.
--   * crates/server/src/api in Server/Api.antt: error.rs, util.rs and the state that handlers
--     share; campaigns.rs in Api/Campaigns.antt, runs.rs, findings.rs, targets.rs and health.rs in
--     Api/Resources.antt, and stream.rs in Api/Stream.antt. A handler asks the store by the trait
--     and answers with a value or an ApiError.
--
-- soroban_sdk is not part of the repository. The host environment is the record Sdk (Core/Adapter)
-- and, for the examples, the record Host (Examples/Host), with what the code relies on as laws: the
-- clock reads what it was set to, a registered contract has the storage of its constructor,
-- mock_auths alone decides whose require_auth passes, and a try_* call keeps the storage of a
-- function that returns and takes back that of one that does not. Tests.antt has a small host that
-- satisfies them.
--
-- Numbers: i64 and i128 are integers with their ranges written out (Int.antt): checked, saturating
-- and panicking arithmetic, and the cast to i64. Indices of addresses are natural numbers, which
-- the code reduces modulo the pool's length. Every loop is structural recursion, so that no fuel is
-- needed.
--
-- A runner is a function that gives the events it emits and its result, so that it is taken to
-- return; workers' loops are given by the number of their rounds. Ids and times are read and written
-- by the record Formats, the channels of tokio are named by their senders, and what a receiver
-- answers is a list. A Store may fail at every call. On the database, constraints fail, and a list
-- of campaigns by the errors of the database and its connection as well, which its surroundings
-- give; that the connection fails in another transaction is left out.
--
-- arbitrary::Unstructured is the record Source (Strategies/Source), whose draws from a range lie in
-- the range.
--
-- Postgres is not part of it either: a statement is what SQL says it does to rows, in the order of
-- their insertion where the statement names none; ids and times come as arguments. Transactions that
-- overlap are not modelled, except that the updates of cancel_campaign, which another transaction
-- can come before once the status was read, are a function of their own.
--
-- Not modelled: logging; the derived Arbitrary instances; the text of panics in the host; of
-- crates/server, the router and the JSON encoding, which are the web framework's, run_with_timeout
-- of runner/sandbox.rs, which is made of calls of the operating system, listening and the wait for
-- a signal in main.rs, and the mock of the store for tests.
pub mod Base
pub mod Int
pub mod Core
pub mod Strategies
pub mod Invariants
pub mod Examples
pub mod Server
pub mod Tests
