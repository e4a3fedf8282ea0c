-- ===== src/Sentinel.antt =====
-- `RBTree` (Red_Black_Tree/RBTree.hpp): the red-black tree with a sentinel `nil`, changed by
-- `insert`, `modify` and `remove`. `nil` is `null` here: it is black, its own links are null
-- pointers, so that reading a colour below it is a fault, and its `parent` is set wherever it takes
-- a removed node's place, so that there too a pointer is a subtree with the way up.
pub mod Insert
pub mod Remove
pub mod Query
pub mod Agree
pub mod Removal
pub mod Verify
pub mod Walk
pub mod LevelOrder
pub mod Examples
