-- ===== src/BTree.antt =====
-- lib/sql/btree.cpp, btree_page.h: the index.
pub mod Node
pub mod Leaf
pub mod Internal
pub mod Table
pub mod Tree
pub mod Conditions
pub mod Iterator
mod Tests
