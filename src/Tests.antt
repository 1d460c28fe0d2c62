-- ===== src/Tests.antt =====
-- Concrete schedulers, and every theorem of the development at one of them.
mod Bios
mod Files
mod Makes
mod Noops
mod Queues
mod Requests
mod Sample
mod Scheduler
mod Submits
