-- ===== src/Lib.antt =====
-- A model of the mining pool: the Stratum v1 sessions, the jobs that they are sent, the service that
-- makes and keeps the jobs, the signing of signet blocks, difficulties, statistics, the class rate
-- limit, the device authorization and its metrics, the polling of the node, the database's rows and
-- the HTTP API over them. Paths are from the root of the repository.
--
-- Parts and how they interact. The job service (src/services/stratum-v1-jobs.service.ts) makes a
-- template from the node's answer and hands it to every session. A session
-- (src/models/StratumV1Client.ts) makes its own job for it (src/models/MiningJob.ts), stores that
-- in the service and sends it to the miner. A submission is looked up in the service, checked
-- against the session's difficulty (src/utils/difficulty.utils.ts) and its class's bucket
-- (src/models/TokenBucket.ts), counted (src/models/StratumV1ClientStatistics.ts), and goes to the
-- node if it is a block. Sessions that need a device ask src/services/mining-authz.service.ts and
-- report to src/services/mining-session-metrics.service.ts. On a signet a session has its job signed
-- by src/services/signet-block-signing.service.ts first and locks the job's nonces and time. The job
-- service is driven by the heights that src/services/bitcoin-rpc.service.ts publishes, and takes its
-- templates from there; several processes share them through src/ORM/rpc-block. Sessions write their
-- clients and statistics to src/ORM/client and src/ORM/client-statistics, which the controllers read.
--
-- Files:
--   Base: numbers, lists, texts, hexadecimal, doubles, tables and JSON values that the parts share.
--   Bucket: `TokenBucket` and `shareCostUnits`. Bounds, Rate and Lockout are about it.
--   Difficulty: `DifficultyUtils`, and `calculateNetworkDifficulty` of the job service.
--   Template: `IJobTemplate`, transactions and blocks, and bitcoinjs-lib as the parameter `Bitcoin`.
--   Job: `MiningJob`; Job/Coinbase its `createCoinbaseTransaction` and the constructor's script and
--     outputs. Payouts, Script, Slot, Search, RoundTrip, Fresh, Merkle and Lock are
--     about it.
--   Jobs: `StratumV1JobsService`; `decide_emission`, `build_template` and `record_template` are the
--     stages of `newMiningJob$`. Store, Emission and Race are about it.
--   Metrics: `MiningSessionMetricsService`. Authz: `MiningAuthzService`.
--   Statistics: `StratumV1ClientStatistics`. Statistics/Saves has
--     `addShares` where the database fails. Slots, Suggest and Fuel are about it.
--   Profile: `getActiveChainProfile` of src/network/chain-profile.ts. Profile/Target is about it.
--   Messages: the classes of src/models/stratum-messages, as functions from JSON values.
--   Session: `handleMessage`; Session/State the fields and `write` and `destroy`, Session/Auth the
--     authorization and the class policy, Session/Device the two device messages, Session/Work the
--     jobs and the difficulty timer, Session/Submit and Session/Score `handleMiningSubmission`.
--     Session/Reach has the events of a session's life. Keeps, Frame, Safe, Admission, Handlers,
--     Accept, Gate, Credit, Admit, Replay, Repeat, Race, End and Policy are about them, Session/Nonces
--     about its two nonces.
--   Signet: `SignetBlockSigningService`; Signet/Encoding its scripts, sizes and bytes, and the
--     libraries that it calls as the parameter `Library`. Sizes, Script, Data, Copies, Keys, Verify,
--     Errors, Refill, Room and Locked are about it. Signet/Node is the check of a node on a signet,
--     written after BIP 325 and BIP 141 and not from the source.
--   NodeRpc: the polling and the fee of `BitcoinRpcService`; NodeRpc/Templates `getBlockTemplate`
--     in several processes, over `RpcBlockService`. Polling and Own are about them.
--   Orm: ClientStatistics is `ClientStatisticsService`, with Ledger, Balance, Charts and Labels
--     about it; Clients is `ClientService`, with Insertion and Liveness about it; AddressSettings is
--     `AddressSettingsService`, with Best and Scores about it; Blocks is `BlocksService`.
--   Tasks: `AppService`. Tasks/Purge is about it.
--   External: `ExternalShareController` and `ExternalSharesService`. External/Accepts is about it.
--   Api: `AppController`, and Api/Workers `ClientController`. Totals and Fee are about them.
--   Authz/Forward: the forwarded calls of `MiningAuthzService`, and the routes of
--     `ActivationController` and `DevicePolicyController`.
--   Tests: test data, and the theorems at concrete inputs.
--
-- Conventions. A handler is a function from a state to a result and a state; the result none is an
-- exception, which keeps what was done before it. Difficulties, hash rates and percentages count
-- grains of 10^-10 and bucket units thousandths of a grain, in exact arithmetic where the source
-- has doubles, but for the quotients of big.js, which the parameter `Big` rounds, and the payouts
-- of the coinbase, which Base/Double rounds. The column `shares` of the statistics is a Postgres
-- `real`, whose rounding is not modelled. A text is its list of UTF-16 code units. A table is a
-- function from keys. The clock is an argument, read once per event. Calls to the database, the
-- node and other services are recorded as effects in their order, and their answers are arguments
-- (`Env`). A table of the database is the list of its rows and a query a function on it, its
-- identifiers read as the columns that they mean; TypeORM's repository of block templates, JSON,
-- big.js, the reading of dates, bitcoinjs-lib, the elliptic curve and the interpreter of scripts
-- are parameters with their laws as hypotheses.
--
-- Fuel: `nearest_power_of_two` recurses on fuel and is none where it runs out; the difficulty
-- timer takes the fuel as an argument, since the source's recursion need not end. 6 rounds are
-- enough for finite values below 2^31: each multiplies by 100, and a grain is 10^-10. `to_hex`
-- takes one round more than its number, which has fewer digits than that. `bit_length` has
-- 512 rounds, for numbers below 2^512. In doubles a value of one grain can take a seventh round of
-- `nearestPowerOfTwo`. All other recursion is structural.
--
-- Bounds: the theorems on coinbases ask for a block height of at most 3 bytes, which is below
-- 2^23: from there on the padding of the script is shorter than the nonces.
--
-- Not modelled: the splitting of the socket's bytes into lines and the printing of JSON; the
-- interleaving of two handlers at their awaits, but for two sessions that make a job at once
-- and the processes of `getBlockTemplate`; the validation errors inside an error line; texts with white space beyond
-- ASCII in numbers; the encoding of fingerprints in base 64, which are their bytes here; address
-- decoding, which is an argument; settings below 0; `getHashRateForGroup` and `getTopDifficulties`,
-- whose queries do not do what they mean to; telegram subscriptions; what another process writes
-- between the two statements of one service call, but for the best difficulty of an address;
-- the sockets, timers, files and requests of the node's and the other services' clients.
pub mod Api
pub mod Authz
pub mod Base
pub mod Bucket
pub mod Difficulty
pub mod External
pub mod Job
pub mod Jobs
pub mod Messages
pub mod Metrics
pub mod NodeRpc
pub mod Orm
pub mod Profile
pub mod Session
pub mod Signet
pub mod Statistics
pub mod Tasks
pub mod Template
pub mod Tests
