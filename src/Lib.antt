-- ===== src/Lib.antt =====
-- Mirrorlane: a log of messages, replayed through projection, scoping, warm-up, skills, routing hints
-- and developer snapshots into stores, and published conversation by conversation to a cache.
--
-- The parts and their files:
--   Base      the standard library's types as the program uses them: HashMap, OrdMap (BTreeMap), OrdSet
--             (BTreeSet), Sort (sort_by), Text and Split (str), Decimal, Result, Json (json!), Http
--             (the crate ureq), and Float, an interface for f64.
--   Core      crates/mirrorlane-core/src: the data, the message log (MessageLog), the stores (Store),
--             the derivation and the interface of its cache (Derivation), consumers (Routing).
--   Runtime   crates/mirrorlane-runtime/src: a step and the semantic cache around it.
--   Provider  crates/mirrorlane-provider/src: the reference ports and the rule router.
--   Github    crates/mirrorlane-github/src: items as messages, their ingestion, drafts, and the client
--             of the REST interface (Rest).
--   Llm       crates/mirrorlane-llm/src: the projector over a language model; the transports of
--             crates/mirrorlane-openai/src (Openai) and crates/mirrorlane-ollama/src (Ollama).
--   Storage   crates/mirrorlane-storage/src: the stores in SQLite and their migrations.
--   Worker    crates/mirrorlane-worker/src: the jobs (Jobs), the stages that run them (Composition), the
--             replay (Replay, Grouping), publication (Derived), strategies (Registry, Submission), and
--             the queue's side: routed work (RoutedWork), DeadLetters and Observer.
--   Cli       crates/mirrorlane-cli/src: of commands.rs the ports of a command (Context), the commands
--             replay, warmup and verify (Commands), the projector with its durable cache (Projector)
--             and the ingestions (Ingest); broker.rs (Broker); of main.rs the configuration
--             (Config), the settings (Settings) and what each command prints (Report, Queue).
--   Tests     concrete inputs at which the theorems apply.
--
-- How they interact: a command or a submitted job builds a strategy from a StrategyContext of ports; the
-- strategy runs six stages over fresh stores; populate_cache reads the stores and writes the
-- derivations to a DerivedOutputCache, under a version and a hash of the content, from which later
-- commands read. A function has the name that the source gives it, with the state it changes passed in
-- and returned. A panic is `none`, or `panicked` of a handler; an error of a handler is `failed`.
--
-- No definition here runs on fuel or has a bound: every loop of the source is a recursion on its list.
-- Base.Decimal prints a number with one more round than the number, which is more than its digits.
--
-- Parameters, with what is relied on as hypotheses: Worklane's deliveries (Substrate: every payload is
-- delivered at least once and nothing else is), its unique enqueue (KeepsUnique) and its brokers
-- (Brokers, Keeps); f64 (Float: the order of IEEE 754, NaNs included); to_lowercase; DefaultHasher with
-- its print, a function of the texts it is fed; serde_json; ureq (Http); the environment, the file system
-- and str::parse. serde_json is taken to read back what it wrote only of messages and of routing traces,
-- which hold no number with a fraction. Of projections and derivations nothing is taken: without its feature
-- float_roundtrip it may read an f64 back with another last digit, so the caches in SQLite return what
-- is read of what was written (`back` of a DerivedOutputCache).
--
-- The ports of a StrategyContext are functions of their arguments, as replay rests on; a projector over a
-- model acts on a cache and a transport, and Worker/Replay/Frozen says which function it stands for.
--
-- Not modelled: the parsing of the command line, which is clap's, the run loop of a worker, which is
-- Worklane's, the opening of databases, and serialisation: the caches in SQLite read only what they
-- wrote, so the panic on a text that does not parse has no counterpart. Mutexes guard single operations,
-- so an operation is one step.
pub mod Base
pub mod Runtime
pub mod Core
pub mod Provider
pub mod Github
pub mod Worker
pub mod Storage
pub mod Llm
pub mod Cli
pub mod Tests
