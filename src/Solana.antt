-- ===== src/Solana.antt =====
-- The package `solana`. What it takes from the module outscript are the record `Outscript` below and
-- the data that the code reads of outscript's types.
pub mod Keys
pub mod Tx
pub mod Instructions
pub mod Rpc
