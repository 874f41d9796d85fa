-- ===== src/BTree/Tree/Descend.antt =====
-- lib/sql/btree.cpp: the way down to a leaf, before and after a write to a leaf.
use relvec_db.Common.{
  ℕ, zero, suc, ◌≡◌, ◌≢◌, refl, Bool, false, List, ◌∷◌, arith, if◌then◌else◌, Bool-cases, inl, inr,
}
use relvec_db.Common.Int.{eqb_ℤ-eq, ℤ, pos, negsuc, eqb_ℤ}
use relvec_db.Common.Outcome.{Outcome, ok, ◌>>=◌, >>=-eq-ok}
use relvec_db.Row.{Row}
use relvec_db.BTree.Leaf.{Leaf}
use relvec_db.BTree.Internal.{Internal}
use relvec_db.BTree.Table.{Page, Metadata, Index, get_page, set_page, get_root, as_metadata}
use relvec_db.BTree.Tree.{Way, descend, descend_page, child_slot}

-- A write to a page that is there is read back, and the other pages stay.
pub get_page-set_page :
    (t : Index) (i j : ℤ) (x : Page) {y : Page}
    → get_page t i ≡ ok y
    → get_page (set_page i x t) j ≡ (if eqb_ℤ j i then ok x else get_page t j)
unfolding get_page set_page
get_page-set_page t (pos m) (pos n) x h = ground arith
get_page-set_page t (pos m) (negsuc n) x h = refl
get_page-set_page t (negsuc m) j x h = cc

pub get_root-set_page :
    (t : Index) (i root : ℤ) (p q : Leaf)
    → get_page t i ≡ ok (Page.leaf p)
    → get_root t ≡ ok root
    → get_root (set_page i (Page.leaf q) t) ≡ ok root
unfolding get_root
get_root-set_page t i root p q h e =
    let (x, ex, er) = >>=-eq-ok (get_page t (pos 0)) _ e in
    ground (arith, get_page-set_page t i (pos 0) (Page.leaf q) h, other i x h ex er)
  where
    other :
        (i : ℤ) (x : Page)
        → get_page t i ≡ ok (Page.leaf p)
        → get_page t (pos 0) ≡ ok x
        → (as_metadata x >>= λ m. ok m.root) ≡ ok root
        → eqb_ℤ (pos 0) i ≡ false
    other (pos zero) (Page.leaf y) h ex er = cc
    other (pos zero) x h ex er = cc
    other (pos (suc n)) x h ex er = ground arith
    other (negsuc n) x h ex er = refl

-- What one round of the loop came from.
pub data Round (throws : Bool) (go : ℤ → List (ℤ × ℕ) → Outcome Way) (key : Row) (j : ℤ)
    (stack : List (ℤ × ℕ)) (w : Way) : Page → Type 0 where
  through :
      (m : Metadata) → go m.root stack ≡ ok w → Round throws go key j stack w (Page.metadata m)
  down :
      (n : Internal) (slot : ℕ) (child : ℤ)
      → child_slot key n ≡ ok (slot, child)
      → go child ((j, slot) ∷ stack) ≡ ok w
      → Round throws go key j stack w (Page.internal n)
  at_leaf : (p : Leaf) → w ≡ (stack, j, p) → Round throws go key j stack w (Page.leaf p)

pub Round-of :
    (throws : Bool) (go : ℤ → List (ℤ × ℕ) → Outcome Way) (key : Row) (j : ℤ) (stack : List (ℤ × ℕ))
    (w : Way) (x : Page)
    → descend_page throws go key j stack x ≡ ok w
    → Round throws go key j stack w x
unfolding descend_page
Round-of throws go key j stack w Page.invalid e = absurd (ground arith)
Round-of throws go key j stack w (Page.metadata m) e = through m e
Round-of throws go key j stack w (Page.internal n) e =
    let ((slot, child), ec, er) = >>=-eq-ok (child_slot key n) _ e in down n slot child ec er
Round-of throws go key j stack w (Page.leaf p) e = at_leaf p (cc)

-- The way ends at a leaf.
pub descend-leaf :
    (throws : Bool) (t : Index) (key : Row) (fuel : ℕ) (j : ℤ) (stack : List (ℤ × ℕ)) (w : Way)
    → descend throws fuel t key j stack ≡ ok w
    → get_page t w.1 ≡ ok (Page.leaf w.2)
unfolding descend
descend-leaf throws t key zero j stack w e = cc
descend-leaf throws t key (suc fuel) j stack w e =
    let (x, ex, er) = >>=-eq-ok (get_page t j) _ e in
    step x ex (Round-of throws _ key j stack w x er) (descend-leaf throws t key fuel)
  where
    step :
        (x : Page)
        → get_page t j ≡ ok x
        → Round throws (descend throws fuel t key) key j stack w x
        → ((j : ℤ) (stack : List (ℤ × ℕ)) (w : Way)
            → descend throws fuel t key j stack ≡ ok w
            → get_page t w.1 ≡ ok (Page.leaf w.2))
        → get_page t w.1 ≡ ok (Page.leaf w.2)
    step Page.invalid ex r ih = elim r [ ]
    step (Page.metadata m) ex (through m' e) ih = ih m'.root stack w e
    step (Page.internal n) ex (down n' slot child ec e) ih = ih child ((j, slot) ∷ stack) w e
    step (Page.leaf p) ex (at_leaf p' e) ih = rw e ex

-- Two pages of different contents have different indexes.
other_page :
    (t : Index) (i j : ℤ) {x y : Page}
    → get_page t i ≡ ok x
    → get_page t j ≡ ok y
    → x ≢ y
    → eqb_ℤ j i ≡ false
other_page t i j h e ne = elim (Bool-cases (eqb_ℤ j i)) [
  | inl q ↦ let same = eqb_ℤ-eq j i q in absurd (ne (cc (h, e, same)))
  | inr q ↦ q
]

-- A write to a leaf leaves every way as it was, but for the contents of that leaf.
pub descend-set_page :
    (throws : Bool) (t : Index) (i : ℤ) (p q : Leaf) (key : Row) (fuel : ℕ) (j : ℤ)
    (stack : List (ℤ × ℕ)) (w : Way)
    → get_page t i ≡ ok (Page.leaf p)
    → descend throws fuel t key j stack ≡ ok w
    → descend throws fuel (set_page i (Page.leaf q) t) key j stack
      ≡ ok (w.0, w.1, if eqb_ℤ w.1 i then q else w.2)
unfolding descend descend_page
descend-set_page throws t i p q key zero j stack w h e = cc
descend-set_page throws t i p q key (suc fuel) j stack w h e =
    let (x, ex, er) = >>=-eq-ok (get_page t j) _ e in
    rw (get_page-set_page t i j (Page.leaf q) h) (
      step x ex (Round-of throws _ key j stack w x er)
        (λ j stack w. descend-set_page throws t i p q key fuel j stack w h))
  where
    go : ℤ → List (ℤ × ℕ) → Outcome Way
    go = descend throws fuel (set_page i (Page.leaf q) t) key

    step :
        (x : Page)
        → get_page t j ≡ ok x
        → Round throws (descend throws fuel t key) key j stack w x
        → ((j : ℤ) (stack : List (ℤ × ℕ)) (w : Way)
            → descend throws fuel t key j stack ≡ ok w
            → go j stack ≡ ok (w.0, w.1, if eqb_ℤ w.1 i then q else w.2))
        → ((if eqb_ℤ j i then ok (Page.leaf q) else get_page t j)
            >>= descend_page throws go key j stack)
          ≡ ok (w.0, w.1, if eqb_ℤ w.1 i then q else w.2)
    step Page.invalid ex r ih = elim r [ ]
    step (Page.metadata m) ex (through m' e) ih =
        rw (other_page t i j h ex (λ q. cc), ex) (ih m'.root stack w e)
    step (Page.internal n) ex (down n' slot child ec e) ih =
        rw (other_page t i j h ex (λ q. cc), ex, ec) (ih child ((j, slot) ∷ stack) w e)
    step (Page.leaf y) ex (at_leaf y' e) ih =
        rw e (elim (Bool-cases (eqb_ℤ j i)) [ inl b ↦ rw b refl | inr b ↦ rw (b, ex) refl ])
