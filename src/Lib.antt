-- ===== src/Lib.antt =====
-- A verification of relvec-db: the storage core and the database of the SQL engine under lib/sql.
--
-- Rows of values (lib/sql/row.h) are ordered by the comparator (lib/sql/comparator.cpp) and written
-- to the bytes of pages by the marshal (lib/sql/marshal.cpp). Table pages keep rows in slots of one
-- size (lib/sql/fixed.cpp) or one behind another (lib/sql/flexible.cpp), and a table
-- (lib/sql/table.cpp) is a sequence of such pages. The frame pool (lib/sql/bufferpool.cpp) keeps
-- pages in memory, and its clock cache (lib/sql/cache.h) says which frame holds which page. The
-- B-tree (lib/sql/btree.cpp on the pages of lib/sql/btree_page.h) maps keys, which are rows, to
-- row ids. Table pages use the marshal, and the B-tree uses the comparator.
-- The store (lib/sql/store.cpp) creates, opens and removes the files of tables. The catalog
-- (lib/sql/catalog.cpp) keeps the schema of each table as the rows of a table of its own, and the
-- database (lib/sql/database.cpp) composes the two. Schemas have texts (lib/sql/schema.cpp) and an
-- index by column name (lib/sql/accessors.cpp). The interpreter (lib/sql/interpreter.cpp) evaluates
-- the syntax tree of a query (lib/sql/ast.h): it joins tables by a scan of each, and it selects,
-- inserts, creates and drops by the database. The master keeps its texts in a storage of keys and
-- values on a page of its own (master/persistent_kv/kv_storage.cpp).
--
-- The files, by the parts of the program:
--   Common           numbers, lists, ranges of arrays, and `Outcome`: a result, or the way in which
--                    a call does not return one. An access out of range, which is undefined in the
--                    source, is a fault.
--   Row              lib/sql/row.h, row.cpp, and the column types of schema.h
--   Comparator       lib/sql/comparator.cpp: `compareInstances`, `Comparator`, `compareRows`
--   Marshal          lib/sql/marshal.cpp: `serializeRow`, `deserializeRow`, the space of a row
--   Cache            lib/sql/cache.h: `find`, `put`, `lock`, `unlock`
--   FramePool        lib/sql/bufferpool.cpp: `acquireFrame`, `releaseFrame`
--   TablePage        the bytes of a frame; TablePage/Fixed is `FixedPage` of lib/sql/fixed.cpp, and
--                    TablePage/Flexible `FlixiblePage` of lib/sql/flexible.cpp
--   Schema           lib/sql/schema.cpp: the texts of schemas; Schema/Accessor is `SchemaAccessor` of
--                    lib/sql/accessors.cpp
--   Store            lib/sql/store.cpp, over a file system that is a parameter
--   Catalog          lib/sql/catalog.cpp
--   Database         lib/sql/database.cpp, with the callbacks of index types as parameters
--   Query            lib/sql/ast.h and interpreter.cpp: expressions and `executeSomeAST`
--   Query/Join       `executeJoin`
--   Query/Select     `executeSelect` without its sorting, `executeInsert`, `executeCreate`,
--                    `executeDrop`
--   Table            `ImplementedTable` of lib/sql/table.cpp, and lib/sql/scan.cpp
--   BTree/Node       what leaf and internal pages share: the slots and the loops over them
--   BTree/Leaf, BTree/Internal
--                    `BTreeLeafPage` and `BTreeInternalPage` of lib/sql/btree_page.h
--   BTree/Table      `BTreeIndexTable` of lib/sql/btree.h, with the kinds of pages
--   BTree/Tree       lib/sql/btree.cpp: the constructor, `insert`, `lookup`, `remove`
--   BTree/Conditions, BTree/Iterator
--                    lib/sql/index.h, index.cpp, and the iterator of lib/sql/btree.cpp
--   Master/Page, Master/Storage, Master/Balancer
--                    master/persistent_kv: flexible_page.cpp on file_editor.cpp, kv_storage.cpp; and
--                    master/balancer.cpp: `InsertTable`
--
-- State is passed explicitly: an operation takes the page, the cache or the index and returns the
-- new one. A page handle of the source is a read and a write of the page; a handle that is written
-- stands for a `set_page`. A page of the B-tree is the array of its slots, each with the key that
-- the marshal reads back: a key that is set goes through the bytes that the marshal writes
-- (BTree/Node, `stored_key`). A table page is the bytes of its frame. A 32-bit size wraps where
-- `increaseSize` adds to it.
--
-- Loops over slots and columns are structural. The loops that follow page indexes (`descend`,
-- `leftmost_leaf`) take fuel: the pages that they may visit, one more than the depth of the tree.
-- Theorems about them say that the way down was found, and do not bound it. `sweep`, the loop of
-- `put` in the cache, gets one round more than the capacity: a round clears a bit, so the
-- hand meets a clear one when it is back. `next_row` takes as fuel the rows that it may skip, and
-- `insert_row` of a table the pages that it may try.
--
-- The file system is a record of operations with their laws, `FileSystem`, which
-- Store/InMemory fills. An open table has its own frames of the pages of its file, read when it is
-- opened. What the source writes to them is in the file only when the frame pool dumps them, so
-- `write_back` is an operation of its own, and theorems name the point where it happens. That the
-- pool dumps a frame in the middle of an operation is left out. The scan of the catalog gets as fuel
-- the slots of its pages, and so does the scan of a join.
--
-- Not modelled: system calls, the parsing of queries, ORDER BY, what the balancer gives back,
-- the vectors, the network services, and what prints.
pub mod Common
pub mod Row
pub mod Schema
pub mod Comparator
pub mod Marshal
pub mod Cache
pub mod FramePool
pub mod TablePage
pub mod Table
pub mod Store
pub mod Catalog
pub mod Database
pub mod Query
pub mod Master
pub mod BTree
