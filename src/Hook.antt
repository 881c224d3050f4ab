-- ===== src/Hook.antt =====
-- The hook registry: FsdFilter/VNodeHook.h and FsdFilter/VNodeHook.cpp.
pub mod HashTable
pub mod Entry
pub mod Registry
pub mod Loop
pub mod Ops
pub mod Located
pub mod Lookup
pub mod Vector
pub mod Room
pub mod Guards
pub mod Balance
pub mod References
pub mod Refinement
pub mod Threads
pub mod Teardown
