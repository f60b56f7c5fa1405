-- ===== src/Examples.antt =====
-- Concrete runs of the program: the statements at inputs where what they ask for holds.
mod World
mod Configs
mod Commands
mod Lines
mod Sorting
mod KeyTexts
mod Pairing
mod Brokers
mod Parties
mod Signing
mod Joining
mod Payments
mod Requests
mod Stores
mod Wires
