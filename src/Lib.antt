-- ===== src/Lib.antt =====
-- Verification library for aiquanttrader, a trading system for one perpetual contract. The paths below
-- are from the root of the repository.
--
-- The program. Strategies propose orders; the risk authority approves or refuses each of them against
-- the limits, the account and the operator's kill switch, and an approval is spent once, when the order
-- is dispatched. The execution journal records every state of every dispatched order, so that a
-- restarted node knows what is unresolved. A deployment may trade only while the admission ledger holds
-- an active record of it; strategies reach that point along the promotion stages. Before, they trade on
-- the paper exchange, whose orders follow the rules of the venue as far as public data shows them; it
-- matches on states that are assembled from the live public events. Recorded events are checked for
-- their integrity, and their segments are admitted together as a dataset.
--
-- The files.
--   Prelude            names of the libraries, tests on numbers, list functions, integers.
--   Risk/Domain        orders, snapshots, decisions and limits: src/aiquanttrader/domain/execution.py and
--                      src/aiquanttrader/config/models.py.
--   Risk/KillSwitch    src/aiquanttrader/risk/kill_switch.py: a write is a list of file steps, and a crash
--                      leaves a prefix of them.
--   Risk/Assess, Risk/Evaluate, Risk/Consume
--                      RiskAuthority of src/aiquanttrader/risk/authority.py: _state, evaluate with
--                      _rate_limited, and consume. The state is the deque of submissions and the set of
--                      consumed identifiers; clock, kill switch, inflight count and UUID are arguments.
--   Journal            ExecutionJournal of src/aiquanttrader/execution/journal.py: begin, append,
--                      mark_stale_submissions_unknown and the counts, over lists of the rows of its two
--                      tables, and mark_stale_submissions of src/aiquanttrader/execution/node.py.
--   Governance/Promotion
--                      validate_stage_transition of src/aiquanttrader/domain/governance.py, and the
--                      histories that it allows as an indexed data type.
--   Governance/Models, Governance/Ledger
--                      DeploymentAdmissionLedger of src/aiquanttrader/governance/ledger.py: admit, renew,
--                      deactivate, require_active, get, the guard, and the constraints of the schema.
--   Paper              PaperExchangeSimulator of src/aiquanttrader/paper/simulator.py, its orders: submit,
--                      request_cancel, request_cancel_all, elapse, advance and activate_pending.
--   Paper/Account, Paper/Session
--                      its account, over fills, marks and settlements of funding; and both together.
--   Validation         plan_walk_forward, select_candidate and authorize_holdout of
--                      src/aiquanttrader/backtest/validation.py, with the windows, folds and plans of
--                      src/aiquanttrader/backtest/models.py and their validators.
--   Sentinel           SafetySentinel of src/aiquanttrader/sentinel/service.py: _classify and step, which
--                      return the calls of the exchange and the records beside the memory.
--   Heartbeat          HeartbeatPublisher of src/aiquanttrader/execution/heartbeat.py, between the kill
--                      switch that it reads and the sentinel that reads its file.
--   Shadow/Ingress     src/aiquanttrader/shadow/ingress.py, append and read_after over the table of frames.
--   Market             the events of src/aiquanttrader/domain/market.py, and LiveMarketStateAssembler of
--                      src/aiquanttrader/paper/market.py, which makes of them the states that the paper
--                      exchange matches on.
--   Market/Integrity   IntegrityTracker of src/aiquanttrader/market_data/integrity.py.
--   Market/Admission   build_dataset_manifest of src/aiquanttrader/market_data/admission.py, with the
--                      manifests of src/aiquanttrader/domain/data.py.
-- In each part the data and the operations come first, then the lemmas, named for what they prove, and
-- a Tests module with runs and the theorems at concrete inputs.
--
-- How the code is read.
--   A decimal is the count of its units of 10⁻⁸ (of 10⁻¹⁶ for the quantities of the paper exchange,
--   and of the units that Paper/Account names for its money and marks), as a natural number where the
--   code validates that it is not negative, and as an integer elsewhere. The rounding of Python's
--   decimals to 28 digits is left out. A comparison of a quotient is a comparison of products, the
--   divisor being positive. Nanosecond timestamps are natural numbers; Python's integers have no
--   bound, so none is stated. Subtraction on natural numbers stops at 0; it is used where the code has
--   checked the order of its operands, or where 0 passes the same tests as the negative result.
--   Identifiers, digests and addresses are only compared, so natural numbers stand for them. The
--   canonical SHA-256 and the HMAC of the authority are parameters (Risk/Evaluate, Digests), and so is the
--   digest that makes the identifier of a paper order; that digests of different contents differ is a
--   hypothesis where a theorem needs it.
--   A call that raises returns an error. A database transaction that raises is rolled back, so the
--   sequences of calls of the journal and of the ledger go on from the tables before the call. A sequence
--   of operations of the paper exchange ends at the first that raises.
--   Loops are structural recursion on the list, or the number of tries, that the code iterates over.
--   Only the planning of folds has fuel: one more than the start of the holdout, which is enough because
--   the cursor grows by a positive step and the loop stops before it reaches the holdout
--   (Validation/Folds).
--
-- Not modelled. A kill-switch file of bytes that are not UTF-8, a torn line of its audit log, and an
-- operational record of the sentinel that cannot be appended; the digests in the fill identifiers of
-- the paper exchange, and its restart; the network, database files and processes; the verification of
-- signed tokens before the ledger; the strategies, the features, the backtest kernel and its
-- statistics, market data capture and storage, the shadow service, the observability, and the
-- acceptance and research evidence.
pub mod Prelude
pub mod Governance
pub mod Heartbeat
pub mod Journal
pub mod Market
pub mod Paper
pub mod Risk
pub mod Sentinel
pub mod Shadow
pub mod Validation
