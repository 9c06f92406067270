-- ===== src/Coordinator.antt =====
-- The coordinator of one run (coordinator/src/coordinator.rs): its state, the services it calls,
-- and the trace of its calls. The parts of the file stand in the children: saving and history in
-- `Records`, dispatch in `Dispatch`, the handlers in `Handlers`, taking a run over in `Rehydrate`,
-- the ends of a run in `Finish`, the event loop in `Loop`, and the start in `Start`; `Frame` and
-- `Thrift` hold lemmas over several of them.
pub mod State
pub mod Records
pub mod Dispatch
pub mod Handlers
pub mod Finish
pub mod Rehydrate
pub mod Loop
pub mod Start
pub mod Thrift
pub mod Frame
mod Tests
