-- ===== src/Tests.antt =====
-- Runs of the definitions on fixed inputs, in fixed-point numbers of four decimals.
mod Data
mod Sizing
mod Prices
mod Gates
mod Engine
mod Execution
mod Levels
mod Market
mod Signals
mod Trades
mod Analytics
