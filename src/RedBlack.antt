-- ===== src/RedBlack.antt =====
-- B+Tree/temp.cpp
pub mod Tree
pub mod Order
pub mod Colors
pub mod Insert
pub mod Query
pub mod Remove
pub mod Client
pub mod Examples
