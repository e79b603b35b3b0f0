-- ===== src/Tests.antt =====
-- Concrete runs of the modelled code, at which the hypotheses of the theorems hold.
mod Grants
mod Frames
mod Handshakes
mod Links
mod Sessions
mod Policies
mod Registers
mod Agreements
mod Joins
mod Controls
mod Visits
mod Requests
mod Operators
