-- ===== src/Examples.antt =====
-- Runs of the models on concrete inputs, and the properties at them.
mod Numbers
mod Streams
mod Hubs
mod Receivers
mod Wire
mod Sessions
mod Hops
mod Probers
mod TcpProbes
mod Senders
mod Timelines
mod Suspects
mod Merges
mod Clients
mod Reports
mod Finished
mod Terminals
