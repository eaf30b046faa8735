-- ===== src/Tests.antt =====
-- Runs of the theorems on concrete pages, files and pools.
mod Pages
mod Leaves
mod Keys
mod Files
mod Pools
mod Heaps
mod Forest
mod Trees
mod Composites
mod Indexes
mod Grows
mod Drivers
