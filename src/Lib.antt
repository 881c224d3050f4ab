-- ===== src/Lib.antt =====
-- Verification library of the Mac OS X file system filter (FsdFilter).
--
-- The program is a kernel extension that filters file system calls. Its driver object
-- (FsdFilter/FsdFilter.cpp) learns the layout of a vnode operation vector from a fake file system
-- (FsdFilter/FltFakeFSD.cpp), creates a hash table of hooked vectors (FsdFilter/VNodeHook.cpp over
-- FsdFilter/CommonHashTable.cpp), and listens to Kernel Authorization (FsdFilter/Kauth.cpp). The
-- listener hooks the vector of each vnode that it sees, and of its parent: the functions in the
-- vector are kept in an entry of the table and replaced with the hooks of FsdFilter/VFSHooks.cpp,
-- through a copy that works on read-only memory (FsdFilter/VmPmap.cpp). A hook looks up the
-- function it replaced and calls it; the hook of reclaim also unhooks the vnode, and the last
-- unhooking restores the vector.
--
-- Base: numbers, Boolean tests, lists and options that the other modules share.
-- Vnop: vnop descriptors, FltVopEnum, and the static arrays of VNodeHook.cpp with their searches.
-- Hook: the registry of VNodeHook.h and VNodeHook.cpp. Hook/HashTable is the interface to the hash
--   table, as an instance argument; Hook/Entry is class FltVnodeHookEntry; Hook/Registry is the
--   state (table, entry objects by address, words of the vectors by address, references taken on
--   parents), the kernel's answers (Env), and RetrieveEntry, AddEntry and RemoveEntry; Hook/Loop is
--   the loops over gFltVnodeVopHookEntries; Hook/Ops is FltHookVnodeVop, FltUnHookVnodeVop,
--   FltGetOriginalVnodeOp and the two functions that also treat the parent. Each section under one
--   hold of the lock is a function of its own. The other modules hold lemmas: Located (the loops
--   over the slots), Lookup, Vector (one vector), Room (no room for an entry), Guards, Balance
--   (several vnodes), Refinement (sequences of calls against a counter), References.
--   Hook/Threads is several threads in the three functions at once: a program counter for each
--   thread, the step that it takes next, and interleavings of the steps as the lock allows them. A
--   step is a part of a function that the others see as one: a section under the exclusive lock is
--   entered by one step and done by the next, the shared section of FltHookVnodeVop is two steps,
--   the other shared sections one. Below it, Counting, Held, Exchange, Private and Sound are about
--   references, Progress about the ends of calls, Alone about a thread that no other interrupts,
--   Loops, Sections, Kept, Vectors, Proper and Originals about the kept originals and the words.
--   Hook/Teardown is FltVnodeHooksHashTable::free over the functions of the hash table Ght.
-- VfsHooks: the hooks of VFSHooks.cpp; Index, Original and Always relate them to their slots.
-- Kauth: the gate of Kauth.cpp and its callback.
-- Driver: start and free of FsdFilter.cpp, and the static table, deleted without entries.
-- VmPmap: the copy of VmPmap.cpp.
-- Ght: the hash table of CommonHashTable.h and CommonHashTable.cpp. Ght.antt has the structures,
--   and the memory of entries by address; Hash and Crc are the hash functions, Bucket the private
--   functions, Table and Iterate the exported ones. Chain, Unlink, Find, View, Linked, Inserted,
--   Removed, Value and Plain hold lemmas: lists linked both ways, the search, the part of the state
--   that the buckets are read from, its invariant. Correct, Replace, Create, Blocks,
--   Sequence, Finalize, Front and Heuristics are about the exported functions; Instance fills the
--   interface Hook/HashTable. The blocks of a table are followed by the events of allocation and of
--   release that ght_create and ght_finalize list.
-- FakeFsd: arrays, searches, operations and registration of FltFakeFSD.cpp. DataSearch is the
--   search for the member v_data, DataFailure about its failures, Layout that for the member v_op
--   and for the offsets in a vector, which reads at most 100 words of a candidate, Hits and
--   Recorded about what that search counts and writes, MountLayout the search in the mounts, Vfs
--   the getters on what it finds and the file system operations, FunctionAt the check of a
--   function's first instructions by the disassembler, and VnodeLayout FltGetVnodeLayout as a
--   whole.
-- VersionDependent: the fixed layout of VersionDependent.cpp, which replaces FltFakeFSD.cpp in a
--   build without USE_FAKE_FSD.
-- Tests: a concrete table, kernel and vector, and an example of each result.
--
-- Modelled is the release build of the project file: USE_FAKE_FSD is defined, _DLD_MACOSX_CAWL and
-- DBG are not, so assertions and debug output are absent; only VersionDependent is of another
-- build. Pointers and words are natural numbers, with the wrap-around at 2 ^ 64 or 2 ^ 32 written
-- out; a function pointer is a value of VopFunc. The fuel of the copy loop is the length, since
-- each round copies at least a byte; that of a walk over a bucket is the number of entries made so
-- far; the loop of ght_create has 32 rounds, that for v_data 512, the words of a page, and that
-- over a mount structure 32, the words of its first 256 bytes. The functions of the registry are
-- modelled where the static table exists. Answers of the kernel, such as vnode_vtype,
-- kauth_listen_scope or bcopy_phys, are parameters. Of the lock of IOKit it is assumed that nobody
-- enters while an exclusive holder is inside, and that an exclusive holder enters only when nobody
-- is inside.
--
-- Not modelled: the vnode operations of the fake file system that are only compiled with
-- _DLD_MACOSX_CAWL, and the vendored disassembler distorm, of which the result of
-- distorm_decompose64 is a parameter.
pub mod Base
pub mod Vnop
pub mod Hook
pub mod VfsHooks
pub mod Kauth
pub mod Driver
pub mod VersionDependent
pub mod Ght
pub mod VmPmap
pub mod FakeFsd
pub mod Tests
