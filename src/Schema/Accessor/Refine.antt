-- ===== src/Schema/Accessor/Refine.antt =====
-- lib/sql/accessors.cpp: a `SchemaAccessor` finds a column as a search through the schema would.
use mathlib.Core.List.{append_assoc}
use relvec_db.Common.{
  ℕ, ◌≡◌, refl, ap, ◌∙◌, arith, inl, inr, Bool-cases, Option, none, some, List, [], ◌∷◌, ◌++◌,
  if◌then◌else◌, length, length-append, get_elem?,
}
use relvec_db.Common.Outcome.{Outcome, ok, fail, thrown_text, ◌>>=◌}
use relvec_db.Row.{ColumnSchema, Schema, bytes_eq}
use relvec_db.Schema.Accessor.{
  SchemaAccessor, new_accessor, find_index, or_thrown, at_index, column_at,
  get_column_index_or_null, get_column_or_null, get_column_index_or_throw, get_column_or_throw,
  add_column,
}
use relvec_db.Schema.Accessor.Coherent.{
  last_index, IsCoherent, new_accessor-IsCoherent, add_column-IsCoherent,
}

-- The last column of that name, by a walk through the schema.
unfoldable pub last_named : List ℕ → Schema → Option ColumnSchema → Option ColumnSchema
last_named name [] found = found
last_named name (column ∷ schema) found =
    last_named name schema (if bytes_eq column.name name then some column else found)

get_elem?-append :
    (front : Schema) (column : ColumnSchema) (rest : Schema)
    → get_elem? (front ++ column ∷ rest) (length front) ≡ some column
get_elem?-append [] column rest = refl
get_elem?-append (c ∷ front) column rest = get_elem?-append front column rest

at_index-last_index :
    (front schema : Schema) (name : List ℕ) (index : Option ℕ) (found : Option ColumnSchema)
    → at_index (front ++ schema) index ≡ ok found
    → at_index (front ++ schema) (last_index (length front) name schema index)
      ≡ ok (last_named name schema found)
unfolding last_index last_named
at_index-last_index front [] name index found h = h
at_index-last_index front (column ∷ schema) name index found h =
    let step : at_index ((front ++ column ∷ []) ++ schema)
          (if bytes_eq column.name name then some (length front) else index)
        ≡ ok (if bytes_eq column.name name then some column else found) =
      rw (append_assoc front (column ∷ []) schema) (elim (Bool-cases (bytes_eq column.name name)) [
        | inl same ↦ rw (same, get_elem?-append front column schema) refl
        | inr other ↦ rw other h
      ]) in
    let rest =
      at_index-last_index (front ++ column ∷ []) schema name
        (if bytes_eq column.name name then some (length front) else index)
        (if bytes_eq column.name name then some column else found) step in
    ap
      (λ n. at_index (front ++ column ∷ schema) (
        last_index n name schema
          (if bytes_eq column.name name then some (length front) else index)))
      (omega (arith, length-append front (column ∷ [])))
    ∙ rw (append_assoc front (column ∷ []) schema) at rest

-- The accessors that the constructors and `addColumn` make.
pub data IsBuilt : SchemaAccessor → Type 0 where
  built : (schema : Schema) → IsBuilt (new_accessor schema)
  added :
      {a b : SchemaAccessor} (column : ColumnSchema)
      → IsBuilt a
      → add_column column a ≡ ok b
      → IsBuilt b

IsBuilt-IsCoherent : {a : SchemaAccessor} → IsBuilt a → IsCoherent a
IsBuilt-IsCoherent (built schema) = new_accessor-IsCoherent schema
IsBuilt-IsCoherent (added {a} {b} column h e) =
    add_column-IsCoherent column a (IsBuilt-IsCoherent h) e

abbrev pub or_thrown_column : Option ColumnSchema → Outcome ColumnSchema
or_thrown_column none = fail thrown_text
or_thrown_column (some column) = ok column

found-column :
    (o found : Option ColumnSchema)
    → (column_at o >>= λ column. ok (some column)) ≡ ok found
    → column_at o ≡ or_thrown_column found
found-column none found h = cc
found-column (some column) none h = cc
found-column (some column) (some other) h = ground (arith, h)

at_index-or_thrown :
    (schema : Schema) (index : Option ℕ) (found : Option ColumnSchema)
    → at_index schema index ≡ ok found
    → (or_thrown index >>= λ i. column_at (get_elem? schema i)) ≡ or_thrown_column found
at_index-or_thrown schema none none h = refl
at_index-or_thrown schema none (some column) h = cc
at_index-or_thrown schema (some i) found h = found-column (get_elem? schema i) found h

get_column_or_throw-or_null :
    (a : SchemaAccessor) (name : List ℕ) {found : Option ColumnSchema}
    → get_column_or_null a name ≡ ok found
    → get_column_or_throw a name ≡ or_thrown_column found
unfolding get_column_or_throw get_column_or_null get_column_index_or_throw get_column_index_or_null
get_column_or_throw-or_null a name {found} h =
    at_index-or_thrown a.schema (find_index name a.column_name_to_index) found h

-- An accessor that was made from a schema, or from another by an `addColumn` that returned, finds
-- the last column of its schema that has the name, as a walk through the schema does. Where there
-- is none, `getColumnOrNull` returns null and `getColumnOrThrow` throws.
pub get_column-last_named :
    {a : SchemaAccessor}
    → IsBuilt a
    → (name : List ℕ)
    → (get_column_or_null a name ≡ ok (last_named name a.schema none))
      × (get_column_or_throw a name ≡ or_thrown_column (last_named name a.schema none))
get_column-last_named {a} h name =
    let found : get_column_or_null a name ≡ ok (last_named name a.schema none) =
      unfold get_column_or_null in
      rw (IsBuilt-IsCoherent h name) (at_index-last_index [] a.schema name none none refl) in
    (found, get_column_or_throw-or_null a name found)
