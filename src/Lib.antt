-- ===== src/Lib.antt =====
-- A verification library for the data structures of learn_spdk.
--
-- The repository holds independent programs, each with a data structure of its own and a driver.
-- RedBlack is the class template `RedBlackTree` of B+Tree/temp.cpp, of which KV_Store/RBTree.cpp is
-- a copy. Red nodes, null pointers for empty children, a count of nodes, `insert`, `remove`, `find`,
-- the traversals and `validate`.
-- Sentinel is the class template `RBTree` of Red_Black_Tree/RBTree.hpp, whose empty children are one
-- shared black node `nil`. It has its own fix-up loops, `get`, `modify`, `min`, `max`, the traversal
-- by a stack, and `verifyRBProperties`.
-- LruCache is `LRUCacheWithTTL` of LRU_with_TTL/LRUCache.cpp, a list of nodes in the order of their
-- use, and a map from keys to iterators into it.
-- SortedMap is what both trees promise to be, a sorted association list, and Base/Key the order on
-- keys that the templates ask for. The trees share Tree, Order and Colors of RedBlack.
--
-- How the trees are modelled. A pointer to a node in a tree is the subtree below it together with
-- the way from it up to the root, a list of the nodes above with their other children; parent links
-- are that way. A write through a pointer changes the subtree or the way, and a loop that climbs
-- takes one item from the way. RedBlack/Tree has this view with the rotations; Insert and Remove are
-- the operations of the class in the order of the code, Query the operations that only read. A
-- dereference of a null pointer is a result of its own, which the theorems on `insert` and `remove`
-- exclude. In Sentinel, the children of `nil` are null pointers, and `nil` is the empty tree at a
-- known place.
--
-- Bounds. The fix-up loops run on fuel, one round more than there are nodes above the start, since a
-- round that goes on climbs, or is the last but one; `level_order` and `levelOrder` have one round
-- for each level, `inOrder` one for each node, and each a last one that finds nothing left. A loop
-- that has no round left is no result. That the fuel is enough is part of the theorems: they state
-- that there is a result.
--
-- The cache. An iterator is the address of a list node, given by the allocator, and each reading of
-- the clock is an argument, so that time may pass between two readings in one call. To read a node
-- that was erased is no result. An allocator may give the address of a node that is gone. Integers
-- are 32-bit patterns, which are only compared and copied; times are counts without an overflow.
--
-- ThreadPool is `Threadpool` of ThreadPool/Threadpool.cpp. A run is a sequence of events, in any
-- order: a call of `add_task`, the beginning of the destructor, or a step of a worker, which is its
-- critical section or the call of its task. The join of the destructor is the state where all have
-- returned.
--
-- BPlusTree is `BPlusTree` of B+Tree/BplusTree.cpp, of which KV_Store/BplusTree.cpp is a copy. Its
-- root file has the leaf nodes, two vectors side by side; Nodes the inner nodes with their splits,
-- and Tree the operations of the class. A tree is a value, all of whose leaves are at one depth. A
-- read out of range is no result. Parts says what the nodes hold and that keys part it. The links
-- between the leaves are a model of their own in Links, where a leaf has an address and a pointer to
-- the next one: `split` with its updates of the links, and the loops of `range_query` and `size`
-- along them, on one round more than there are leaves. What the tree does to `first_leaf` and to the
-- links is not modelled.
--
-- LockfreeQueue is `LockfreeQueue` of atomic/LockfreeQueue.cpp: threads that share nodes, where each
-- atomic operation is one step, and the steps of the threads come in any order. The model is
-- sequentially consistent, so that it leaves out what the relaxed loads may see besides. A new node
-- has a number that no node has had, since the shared pointers keep an address from being used
-- again.
--
-- Slab is KV_Store/simple_slab.c: blocks of one page that their first words link. A store out of the
-- page is no result, and Slab/Client is a program that uses the slab.
--
-- FdTable is the table of descriptors of spdk_filesystem/myfs.c, a bit for each; the loop of
-- `get_fd_from_bitmap` has one round for each descriptor from 3 up to 1024.
--
-- Not modelled: the reference counts of the smart pointers, since every operation leaves them to the
-- language; printing and the test drivers; `delete_slab`; and the code around SPDK, which mostly
-- calls that library: the servers, the NVMe access, and the files of the file system.
pub mod Base
pub mod SortedMap
pub mod RedBlack
pub mod Sentinel
pub mod LruCache
pub mod ThreadPool
pub mod BPlusTree
pub mod LockfreeQueue
pub mod Slab
pub mod FdTable
