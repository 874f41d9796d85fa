-- ===== src/BTree/Tree/Written.antt =====
-- lib/sql/btree.cpp, `BTree::lookup` after a write to one leaf.
use relvec_db.Common.{ℕ, ◌≡◌, refl, false, [], if◌then◌else◌}
use relvec_db.Common.Int.{ℤ, eqb_ℤ}
use relvec_db.Common.Outcome.{ok}
use relvec_db.Row.{Row}
use relvec_db.BTree.Leaf.{Leaf}
use relvec_db.BTree.Table.{Page, Index, get_page, set_page, get_root}
use relvec_db.BTree.Tree.{Way, lookup, leaf_lookup, descend}
use relvec_db.BTree.Tree.Descend.{descend-set_page, get_root-set_page}

pub same_leaf :
    (t : Index) (i j : ℤ) (p q : Leaf)
    → i ≡ j
    → get_page t i ≡ ok (Page.leaf p)
    → get_page t j ≡ ok (Page.leaf q)
    → p ≡ q
same_leaf t i j p q e l r = cc

-- A lookup is the search of the leaf that the way down reaches.
pub lookup-descend :
    (fuel : ℕ) (k : Row) (t : Index) (root : ℤ) (v : Way)
    → get_root t ≡ ok root
    → descend false fuel t k root [] ≡ ok v
    → lookup fuel k t ≡ leaf_lookup k v.2
unfolding lookup
lookup-descend fuel k t root v er ed = rw (er, ed) refl

-- The lookup of any key after a write to a leaf: it searches the new leaf exactly where it would
-- have searched the old one.
pub lookup-set_page :
    (fuel : ℕ) (k : Row) (t : Index) (root i : ℤ) (p q : Leaf) (v : Way)
    → get_root t ≡ ok root
    → get_page t i ≡ ok (Page.leaf p)
    → descend false fuel t k root [] ≡ ok v
    → lookup fuel k (set_page i (Page.leaf q) t) ≡ leaf_lookup k (if eqb_ℤ v.1 i then q else v.2)
lookup-set_page fuel k t root i p q v at_root at reaches =
    lookup-descend fuel k (set_page i (Page.leaf q) t) root
      (v.0, v.1, if eqb_ℤ v.1 i then q else v.2) (get_root-set_page t i root p q at at_root)
      (descend-set_page false t i p q k fuel root [] v at reaches)
