-- ===== src/Lib.antt =====
-- The trading backend, modelled and verified: from bars and account to an approved, executed trade.
--
-- A signal of a strategy is scored by several versions, whose consensus names the one that stands for it;
-- `RiskEngine.assessNewTrade` decides whether it may be traded, with
-- which size, stop and target; `attemptExecution` asks the last gates and `executeIfApproved` sends the order to a broker and records the trade;
-- the simulated broker holds the bracket and trails its stop; the trading-mode gate says whether orders
-- may be placed at all, and whether they reach a live account.
--
-- - Number: the numbers of the program. `Decimal` of decimal.js and JavaScript's numbers are a type D
--   with the operations of the record `Number`. The laws that a theorem needs are its hypotheses:
--   `IsOrdered` and `IsMonotone` hold of operations that round, as those do, and `IsExact` of prices on
--   a grid, whose digits fit; NaN and infinities are not values of D. Number.Fixed is an instance with
--   four decimals that meets all of them, for runs and examples. Counts and times in milliseconds are natural numbers.
-- - Market: sides and bars (`OhlcBar` of backend/src/regime/indicators.ts).
-- - Indicators: backend/src/regime/indicators.ts, the true range with its clipping, and the ATR.
--   `wilder_from` walks the values with the ones seen before, for the index of the loop.
-- - MarketData.MinuteBars: backend/src/marketData/minuteBarAggregator.ts, for one symbol.
-- - Analytics.Session, Analytics.Outcome: backend/src/analytics/session.ts and outcomeSimulation.ts.
-- - Analytics.SupportResistance: backend/src/analytics/supportResistance.ts, pivots, clusters and levels.
-- - Analytics.VolumeProfile, OpeningRange, Fibonacci, EmaTrend, Vwap, Flow, SmartEntry: the files of
--   these names in backend/src/analytics (EmaTrend with intradayEmaProximity.ts, Flow with orderFlow.ts,
--   orderFlowAbsorption.ts and ppm.ts). The `while` of the value area is recursion on as many turns as
--   there are levels. Labels is priceAction.ts, gexAlignment.ts,
--   movingAverages.ts and tradingWeek.ts. A price below zero is outside of the volume profile and of the smart entry.
-- - Risk.Sizing, Risk.Stops, Risk.Brackets, Risk.TradePlan: backend/src/risk/sizing.ts, stops.ts and
--   tradePlan.ts: `computePositionSize`, `computeConfidenceTierQuantity`, `computeInitialStop` with the
--   swing plan and the 5-minute candles, the brackets' checks and trails, and `computeTradePlan`.
-- - Risk.DailyPlan and Risk.Engine: backend/src/risk/engine.ts. `assess_new_trade` is `assessNewTrade`;
--   its gates are in Risk/Engine/Gates.antt, and the prices it settles on in Risk/Engine/Prices.antt.
--   The two early returns of the branch with a hard take-profit differ in their texts only, and are one
--   definition. A text is a constructor that names the message.
-- - Risk.TiltGate, Risk.ChartZoneGate, Risk.CircuitBreakers: the files of these names in
--   backend/src/risk.
-- - Execution.Mode, Execution.Controls, Execution.Reach: backend/src/execution/mode.ts. The row of
--   `system_state`, absent until it is created, and the two flags of connected brokers are the state
--   `Gate`; a thrown ModeChangeError is a `refused`; `Step` is any one of the operations.
-- - Execution.Engine: backend/src/execution/engine.ts. The broker is any `BrokerClient` over a state, and
--   the database is lists of rows. The wait for a resting order is recursion on the attempts that are
--   left, of 601, so it ends.
-- - Brokers.Types, Brokers.Simulated: backend/src/brokers/types.ts and simulatedBroker.ts. Maps are
--   association lists, keyed by the pair of account and symbol.
-- - Scoring: backend/src/scoring/sessionPerformance.ts and consensusBandit.ts, the selection of the
--   version that decides. A map of versions is a list in the order of insertion; `Math.sqrt` and
--   `Math.log` are arguments.
-- - Signals: backend/src/engine/loop.ts, `determineConsensus` and `attemptExecution`. All brokers share
--   one state, and what the method awaits (readings, clock, chart) is an argument.
-- - Trades: backend/src/engine/loop.ts, what a tick does with an open trade. The state `TradeWorld` is
--   the broker's, the rows of trades and orders, and the process's own maps. `manage_live_open_trade`
--   and `manage_simulated_open_trade` are the methods of these names, with `closeTrade`,
--   `maybeReanchorToRealEntry` and the others in files of their own; an operation of a broker answers,
--   and does not throw. Trades.History is backend/src/browserControl/tradeHistoryPanel.ts,
--   Trades.Equity backend/src/engine/accounting.ts, and Trades.Conflict
--   backend/src/engine/crossSymbolConflictCheck.ts.
-- - Strategy: backend/src/strategy, breakout.ts, meanReversion.ts and trendFollowing.ts; `Math.sqrt` is an
--   argument. News: backend/src/news/risk.ts, over the rows of events.
-- - Tests: runs and instances on fixed inputs.
--
-- All other loops are recursion on a list or on a number of bars. `Array.sort` is insertion, which keeps
-- the order of equal elements as the specification of the language asks.
--
-- Not modelled: the brokers that speak to a network or a browser, the feeds of market data, the web interface
-- and its server, the assistants around language models, the weights of the scorers, the methods of the
-- signal loop that read the database around the modelled parts, replay, the reading of news and scripts.
pub mod Analytics
pub mod Brokers
pub mod Execution
pub mod Indicators
pub mod Market
pub mod MarketData
pub mod News
pub mod Number
pub mod Prelude
pub mod Risk
pub mod Scoring
pub mod Signals
pub mod Strategy
pub mod Tests
pub mod Trades
