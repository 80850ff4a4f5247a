-- ===== src/Tests.antt =====
-- Runs on small inputs, and each theorem at a concrete input.
mod Machine
mod Agreement
mod Child
mod Complete
mod Copy
mod Fifo
mod Main
mod Mapping
mod Master
mod MasterLimit
mod Served
mod Slave
mod Termination
mod Transfer
mod Trial
mod Sjf
mod Printing
mod Pipe
mod Psjf
mod Rr
mod Results
mod Logging
