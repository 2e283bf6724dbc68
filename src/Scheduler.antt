-- ===== src/Scheduler.antt =====
-- omnetpp/scheduler: the queues that a proxy, a data server or a client keeps its packets in.
pub mod IQueue
pub mod Samples
pub mod Fifo
pub mod Dta
pub mod Edf
pub mod Sfq
pub mod Ssfq
pub mod Avatar
pub mod I2l
pub mod Dsfq
