-- ===== src/Schema/RoundTrip.antt =====
-- lib/sql/schema.cpp: `deserializeSchema` on the texts that `toString` makes.
use mathlib.Core.List.{append_assoc}
use relvec_db.Common.{
  ℕ, ◌^◌, ◌<◌, false, List, [], ◌∷◌, ◌++◌, ◌≡◌, ◌≢◌, refl, ap, ◌∙◌, sym, arith, All, All-append,
  ◌==◌,
}
use relvec_db.Common.Outcome.{ok, fail, runtime_error}
use relvec_db.Common.Texts.{bytes}
use relvec_db.Row.{ColumnSchema, Schema}
use relvec_db.Row.ColumnType.{vector}
use relvec_db.Schema.{
  type_text, length_text, column_text, append_columns, schema_text, parse_type, parse_column,
  parse_columns, split_tokens, deserialize_schema, pop_back, drop_separator,
}
use relvec_db.Schema.Tokens.{
  is_separator, IsPlain, read_word_space, read_word_end, split_tokens-append, split_tokens_last,
  pop_back-append,
}
use relvec_db.Schema.Columns.{
  IsTextual, All-map, type_part-IsPlain, parse_column-text, parse_column-space,
  find_paren-type_text, parse_length-text,
}

-- The text of a schema with at least one column, from its front.
joined : ColumnSchema → Schema → List ℕ
joined column [] = column_text column
joined column (next ∷ schema) = column_text column ++ b',' ∷ b' ' ∷ joined next schema

append_columns-joined :
    (result : List ℕ) (column : ColumnSchema) (schema : Schema)
    → append_columns result (column ∷ schema) ≡ (result ++ joined column schema) ++ bytes ", "
unfolding append_columns joined
append_columns-joined result column [] = refl
append_columns-joined result column (next ∷ schema) =
    append_columns-joined ((result ++ column_text column) ++ bytes ", ") next schema
    ∙ ap (λ s. s ++ bytes ", ")
        (append_assoc (result ++ column_text column) (bytes ", ") (joined next schema)
          ∙ append_assoc result (column_text column) (bytes ", " ++ joined next schema))

drop_separator-append : (s : List ℕ) → drop_separator (s ++ bytes ", ") ≡ s
drop_separator-append [] = refl
drop_separator-append (c ∷ s) =
    ap (λ t. pop_back (pop_back t)) (sym (append_assoc (c ∷ s) (b',' ∷ []) (b' ' ∷ [])))
    ∙ ap pop_back (pop_back-append ((c ∷ s) ++ b',' ∷ []) b' ')
    ∙ pop_back-append (c ∷ s) b','

schema_text-joined :
    (column : ColumnSchema) (schema : Schema) → schema_text (column ∷ schema) ≡ joined column schema
unfolding schema_text
schema_text-joined column schema =
    ap drop_separator (append_columns-joined [] column schema)
    ∙ drop_separator-append (joined column schema)

abbrev NoComma : List ℕ → Type 0
NoComma s = All (λ c. (c == b',') ≡ false) s

plain_no_comma : (c : ℕ) → is_separator c ≡ false → (c == b',') ≡ false
plain_no_comma c h = ground arith

column_text-NoComma : (column : ColumnSchema) → IsTextual column → NoComma (column_text column)
unfolding column_text
column_text-NoComma column h =
    All-append _ column.name _ (All-map column.name plain_no_comma h.name_plain)
      (refl, All-map _ plain_no_comma (type_part-IsPlain column.type column.len))

abbrev HasNoComma : ColumnSchema → Type 0
HasNoComma column = NoComma (column_text column)

-- The tokens behind the first one.
later_tokens : Schema → List (List ℕ)
later_tokens [] = []
later_tokens (column ∷ schema) = (b' ' ∷ column_text column) ∷ later_tokens schema

split_tokens-nonempty : (s : List ℕ) → s ≢ [] → NoComma s → split_tokens s ≡ s ∷ []
split_tokens-nonempty [] ne h = absurd (ne refl)
split_tokens-nonempty (c ∷ s) ne h = split_tokens_last c s h

append_ne_nil : (s t : List ℕ) → t ≢ [] → s ++ t ≢ []
append_ne_nil [] t h = h
append_ne_nil (c ∷ s) t h = cc

front_ne_nil : (front : List ℕ) (column : ColumnSchema) → front ++ column_text column ≢ []
unfolding column_text
front_ne_nil front column = append_ne_nil front _ (append_ne_nil column.name _ (cc))

split_tokens-joined :
    (front : List ℕ) (column : ColumnSchema) (schema : Schema)
    → NoComma front
    → NoComma (column_text column)
    → All HasNoComma schema
    → split_tokens (front ++ joined column schema)
      ≡ (front ++ column_text column) ∷ later_tokens schema
unfolding joined later_tokens
split_tokens-joined front column [] plain h all =
    split_tokens-nonempty _ (front_ne_nil front column) (All-append _ front _ plain h)
split_tokens-joined front column (next ∷ schema) plain h all =
    ap split_tokens (sym (append_assoc front (column_text column) _))
    ∙ split_tokens-append (front ++ column_text column) _ (All-append _ front _ plain h)
    ∙ ap (λ ts. (front ++ column_text column) ∷ ts)
        (split_tokens-joined (b' ' ∷ []) next schema (refl, tt) all.0 all.1)

-- The text of a schema is read column by column.
deserialize_schema-cons :
    (column : ColumnSchema) (schema : Schema)
    → NoComma (column_text column)
    → All HasNoComma schema
    → deserialize_schema (schema_text (column ∷ schema))
      ≡ parse_columns (column_text column ∷ later_tokens schema)
unfolding deserialize_schema
deserialize_schema-cons column schema h all =
    rw (schema_text-joined column schema, split_tokens-joined [] column schema tt h all) refl

parse_columns-later :
    (schema : Schema) → All IsTextual schema → parse_columns (later_tokens schema) ≡ ok schema
unfolding parse_columns later_tokens
parse_columns-later [] h = refl
parse_columns-later (column ∷ schema) h =
    rw
      (
        parse_column-space (column_text column),
        parse_column-text h.0,
        parse_columns-later schema h.1,
      )
      refl

-- `deserializeSchema` of the text of a schema returns the schema, where no column has an empty
-- name, a space or a comma in its name, the type of vectors, or a length of 2 ^ 32 or more.
pub deserialize_schema-schema_text :
    (schema : Schema) → All IsTextual schema → deserialize_schema (schema_text schema) ≡ ok schema
deserialize_schema-schema_text [] h = unfold schema_text deserialize_schema in refl
deserialize_schema-schema_text (column ∷ schema) h =
    deserialize_schema-cons column schema (column_text-NoComma column h.0)
      (All-map schema column_text-NoComma h.1)
    ∙ unfold parse_columns in rw (parse_column-text h.0, parse_columns-later schema h.1) refl

-- A column of type vector whose name has no space and no comma.
pub record IsVector (column : ColumnSchema) : Type 0 where
  pub named : column.name ≢ []
  pub name_plain : IsPlain column.name
  pub type_vector : column.type ≡ vector
  pub length_fits : column.len < 2 ^ 32

vector-NoComma : (column : ColumnSchema) → IsVector column → HasNoComma column
unfolding column_text
vector-NoComma column h =
    All-append _ column.name _ (All-map column.name plain_no_comma h.name_plain)
      (refl, All-map _ plain_no_comma (type_part-IsPlain column.type column.len))

parse_column_vector :
    {column : ColumnSchema}
    → IsVector column
    → parse_column (column_text column) ≡ fail runtime_error
unfolding parse_column column_text
parse_column_vector {column} h =
    let part = type_text column.type ++ length_text column.len in
    rw
      (
        read_word_space column.name part h.named h.name_plain,
        read_word_end part (type_part-IsPlain column.type column.len),
        find_paren-type_text column.type column.len,
        parse_length-text column.len h.length_fits,
        h.type_vector,
      )
      (unfold parse_type type_text in refl)

parse_columns-append_vector :
    (before after : Schema) {column : ColumnSchema}
    → All IsTextual before
    → IsVector column
    → parse_columns (later_tokens (before ++ column ∷ after)) ≡ fail runtime_error
unfolding parse_columns later_tokens
parse_columns-append_vector [] after {column} h v =
    rw (parse_column-space (column_text column), parse_column_vector v) refl
parse_columns-append_vector (first ∷ before) after {column} h v =
    rw
      (
        parse_column-space (column_text first),
        parse_column-text h.0,
        parse_columns-append_vector before after h.1 v,
      )
      refl

-- `deserializeSchema` throws on the text of a schema with a column of the type of vectors that has
-- a name without spaces and commas and a length below 2 ^ 32, where the columns before it have the
-- properties under which they are read back, and no comma is in the texts of those behind it.
pub deserialize_schema_vector :
    (before after : Schema) {column : ColumnSchema}
    → All IsTextual before
    → IsVector column
    → All HasNoComma after
    → deserialize_schema (schema_text (before ++ column ∷ after)) ≡ fail runtime_error
deserialize_schema_vector [] after {column} h v all =
    deserialize_schema-cons column after (vector-NoComma column v) all
    ∙ unfold parse_columns in rw (parse_column_vector v) refl
deserialize_schema_vector (first ∷ before) after {column} h v all =
    deserialize_schema-cons first (before ++ column ∷ after) (column_text-NoComma first h.0) (
      All-append HasNoComma before (column ∷ after) (All-map before column_text-NoComma h.1)
        (vector-NoComma column v, all))
    ∙ unfold parse_columns in
      rw (parse_column-text h.0, parse_columns-append_vector before after h.1 v) refl
