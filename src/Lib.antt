-- ===== src/Lib.antt =====
-- The PerpCity Rust SDK: a verification library.
--
-- The crate is a client of a perpetual-futures exchange on a chain. This library models its core
-- that computes and keeps state: the high-frequency toolkit of src/hft, the endpoint pool of
-- src/transport, the exact arithmetic of src/units and src/math, the scan and the folds of
-- src/history. Definitions are translated function by function, keep the source's names, and compute.
--
-- The parts and how they interact.
--   A caller prepares a transaction with the pipeline, which asks the nonce manager for a nonce and
--   the fee cache for fees; when it is sent, it records the submission, and later it resolves it or
--   gives the nonce back. The position manager says which positions to close, the state cache keeps
--   what was read from the chain, and the latency tracker keeps how long calls took. Calls go
--   through the endpoint pool, which selects an endpoint by the circuit breaker of each. The swap
--   simulation walks the ticks of a pool's snapshot by the deltas of its arithmetic, on the ratios
--   of the tick module and the fixed-point operations; ranges, liquidity sizing and taker capacity
--   stand on the same ratios and deltas; the taker's health, the averages and the fair price stand on
--   the fixed-point operations. The log scan asks a server for ranges of
--   blocks at the width that its search believes in and reads each failure for what it says of the
--   width; the events of the logs, in chain order behind a guard, are folded into what a market and
--   its positions are, and the folds of two segments combine.
--
-- The files and the code.
--   Hft/Nonce            src/hft/nonce.rs: NonceManager
--   Hft/Gas              src/hft/gas.rs: FeeCache, Urgency, estimate_floor
--   Hft/Pipeline         src/hft/pipeline.rs: TxPipeline; Pipeline/World has the callers that hold
--                        prepared transactions, and the step relation of the calls that keep the
--                        discipline of its documentation (a caller that resynchronises while it
--                        holds a prepared nonce, which the code does not stop, is outside it)
--   Hft/StateCache       src/hft/state_cache.rs: StateCache
--   Hft/Positions        src/hft/position_manager.rs: PositionManager
--   Hft/Latency          src/hft/latency.rs: LatencyTracker (`record` is record_latency)
--   Transport/Health     src/transport/health.rs: EndpointHealth, with CircuitBreakerConfig of
--                        src/transport/config.rs
--   Transport/Pool       src/transport/provider.rs: ManagedEndpoint, EndpointPool, the permit's drop
--   Math/FixedPoint      src/units/fixed_point.rs; FixedPoint/Exp has exp_wad
--   Math/Tick            src/math/tick.rs: the integer functions
--   Math/Amounts         src/math/swap.rs: amount0_delta, amount1_delta, next_sqrt_from_amount0
--   Math/Swap            src/math/swap.rs: PoolSnapshot::simulate, round by round, and the active
--                        liquidity; checked_add_signed of src/units/liquidity.rs
--   Math/Range           src/math/range.rs: TickRange, MakerBand
--   Math/Side            src/units/side.rs: Side, PerSide
--   Math/Liquidity       src/math/liquidity.rs: sizing, amounts of a band, liquidity changes
--   Math/Capacity        src/math/capacity.rs: PricedRange, liquidity_for_capacity, MarketCapacity
--   Math/Taker           src/math/taker.rs: TakerHealth, with is_healthy of src/math/mod.rs;
--                        Taker/Search has first_failing over any test
--   Math/Pricing         src/math/pricing.rs: calculate_emas, Emas, fair_price
--   Math/Maker           src/math/maker_equity.rs: fee_growth_inside1, maker_cuml_funding, with the
--                        `since` of FeeGrowth in src/units/accumulators.rs
--   Units/Share          src/units/share.rs: Share and the splits of a count
--   Units/Amount         src/units/amount.rs: the text of an amount, printed and read
--   Transport/Fault      src/transport/fault.rs: fault, is_rate_limit
--   History/Width        src/history/scan.rs: WidthSearch (`accepted` and `rejected` are accept and
--                        reject)
--   History/Scan         src/history/scan.rs: scan_all and what it calls; Scan/Newest has scan_newest
--   History/Fold         src/history/fold/mod.rs: Fold, Sequenced; the shapes Latest and First of
--                        src/history/fold/shapes.rs are options
--   History/Tape         src/events.rs: MarketEvent; src/history/tape/mod.rs: TapeEvent, ChainPoint
--   History/Replay       src/history/replay: Market has Rates and Modules of market.rs, Position has
--                        PositionKind and PositionState of positions.rs, with the events of one
--                        position and the prices that Positions::apply gives it
--   Base                 names, Boolean tests, lists, dictionaries, machine words, integers, results
--
-- How the code is read.
--   A method on `&mut self` is a function from the state to the result and the next state. Atomics
--   are read and written one call at a time: an interleaving is a sequence of calls, and a state
--   word that packs a generation with a tag is a pair beside its packed number. A map is an
--   association list without repeated keys. Unsigned words are numbers whose wrap-around is written
--   out; the 512-bit intermediates are exact numbers. The operators of a signed amount wrap, as they
--   do in a release build, but the token and dollar deltas that a position sums are exact integers
--   (History/Replay/Position). An index or an `expect` that panics in the source is a value of its own,
--   or is shown not to be reached. The text of an error is left out. Binary64 numbers, which the
--   position triggers compare, are a parameter (Base/Float) with the laws of IEEE 754 that are used
--   as hypotheses; Float also has an instance on integers, at which the witnesses compute.
--
-- Bounds and fuel.
--   The walk of the simulation takes a round for each initialized tick and four more, which is
--   enough where the edges of the tick domain are not initialized (Math/Swap/Termination).
--   The search for a tick takes 21 rounds, since the ticks are fewer than 2^21. The search for a
--   liquidation price doubles its width: no price from 2^255 on has an answer, so 258 rounds of the
--   gallop and 257 of the bisection are enough (Math/Taker/Ends).
--   A window of n blocks is read in n * (n + 1) + n + 1 requests at most: each either shortens what is
--   left of the window or narrows the width; a pull on the newest scan only narrows. The requests of
--   a scan are sent one at a time, as with an `in_flight` of one.
--   A u128 has 39 digits at most.
--
-- Not modelled.
--   The functions that compute in binary64: prices of ticks, liquidity_for_target_ratio,
--   margin_ratio, the gas estimate's buffer, the partition of weights. The asynchronous client
--   (src/client), the router and the sockets of src/transport, the feeds and the bridge are glue over
--   third-party packages, whose code is not in the repository. Bindings (src/contracts.rs) come from a
--   macro. The valuation of a maker's position, the other conversions of the units, and of
--   the history the tapes' storage, the series and the replay of pool, prices, activity and solvency
--   stand outside this library's scope, as does the pricing of a liquidity change at the cut of two
--   segments, which Positions::combine does.
pub mod Base
pub mod Hft
pub mod Transport
pub mod Math
pub mod History
pub mod Units
