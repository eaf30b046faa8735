-- ===== src/Experiment.antt =====
-- The benchmark drivers of internal/experiment. Times, paths and the texts of labels are left out; a
-- file stands for what `os.OpenFile` gives for a path.
pub mod Keys
pub mod Run
pub mod Workload
pub mod BufferPool
pub mod SyncCost
pub mod Reads
pub mod Writes
