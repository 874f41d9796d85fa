-- ===== src/Schema.antt =====
-- lib/sql/schema.cpp: the texts of types, columns and schemas, and reading a schema from its text.
-- A `std::string` is the list of its bytes. An `std::istringstream` is the rest of its text.
pub mod Accessor
mod RoundTrip
mod Tokens
mod Columns
mod Tests
use relvec_db.Common.{
  ℕ, suc, ◌+◌, ◌%◌, ◌^◌, Bool, true, false, ◌&&◌, ◌||◌, not, Option, none, some, List, [], ◌∷◌,
  ◌++◌, ◌==◌, if◌then◌else◌,
}
use relvec_db.Common.Decimal.{to_string, stoul, is_space, skip_spaces}
use relvec_db.Common.Outcome.{Outcome, ok, fail, runtime_error, ◌>>=◌}
use relvec_db.Common.Texts.{bytes}
use relvec_db.Row.{ColumnType, ColumnSchema, Schema, bytes_eq}
use relvec_db.Row.ColumnType.{boolean, uint64, int64, varchar, string, vector}

-- `toString(Type)`. The type of vectors has no case in the source.
unfoldable pub type_text : ColumnType → List ℕ
type_text boolean = bytes "boolean"
type_text uint64 = bytes "uint64"
type_text int64 = bytes "int64"
type_text varchar = bytes "varchar"
type_text string = bytes "string"
type_text vector = []

abbrev pub length_text : ℕ → List ℕ
length_text len = if len == 0 then [] else bytes "(" ++ (to_string len ++ bytes ")")

-- `toString(const ColumnSchema &)`
unfoldable pub column_text : ColumnSchema → List ℕ
unfolding type_text
column_text column = column.name ++ (bytes " " ++ (type_text column.type ++ length_text column.len))

-- `pop_back`
abbrev pub pop_back : List ℕ → List ℕ
pop_back [] = []
pop_back (c ∷ []) = []
pop_back (c ∷ d ∷ s) = c ∷ pop_back (d ∷ s)

-- The loop of `toString(const Schema &)`, from the text so far on.
unfoldable pub append_columns : List ℕ → Schema → List ℕ
unfolding column_text
append_columns result [] = result
append_columns result (column ∷ schema) =
    append_columns ((result ++ column_text column) ++ bytes ", ") schema

abbrev pub drop_separator : List ℕ → List ℕ
drop_separator [] = []
drop_separator (c ∷ s) = pop_back (pop_back (c ∷ s))

-- `toString(const Schema &)`
unfoldable pub schema_text : Schema → List ℕ
unfolding append_columns
schema_text schema = drop_separator (append_columns [] schema)

abbrev pub push_front : ℕ → List (List ℕ) → List (List ℕ)
push_front c [] = (c ∷ []) ∷ []
push_front c (token ∷ tokens) = (c ∷ token) ∷ tokens

-- What `std::getline(iss, token, ',')` reads, again and again until it reads nothing.
unfoldable pub split_tokens : List ℕ → List (List ℕ)
split_tokens [] = []
split_tokens (c ∷ s) = if c == b',' then [] ∷ split_tokens s else push_front c (split_tokens s)

-- The bytes up to the next space.
unfoldable pub take_word : List ℕ → List ℕ × List ℕ
take_word [] = ([], [])
take_word (c ∷ s) =
    let rest = take_word s in if is_space c then ([], c ∷ s) else (c ∷ rest.0, rest.1)

-- `stream >> word`: the word, which is empty at the end of the stream, and the rest.
unfoldable pub read_word : List ℕ → List ℕ × List ℕ
unfolding take_word skip_spaces
read_word s = take_word (skip_spaces s)

-- `find('(')`: the bytes before it, and those behind it where there is one.
unfoldable pub find_paren : List ℕ → List ℕ × Option (List ℕ)
find_paren [] = ([], none)
find_paren (c ∷ s) =
    let rest = find_paren s in if c == b'(' then ([], some s) else (c ∷ rest.0, rest.1)

-- The comparisons of the type's name.
unfoldable pub parse_type : List ℕ → Outcome ColumnType
unfolding bytes_eq
parse_type name =
    if bytes_eq name (bytes "boolean")
    then ok boolean
    else if bytes_eq name (bytes "uint64")
    then ok uint64
    else if bytes_eq name (bytes "int64")
    then ok int64
    else if bytes_eq name (bytes "varchar")
    then ok varchar
    else if bytes_eq name (bytes "string")
    then ok string
    else fail runtime_error

-- `length`, a `uint32_t`: what `std::stoul` reads between the parenthesis and the last byte.
unfoldable pub parse_length : Option (List ℕ) → Outcome ℕ
unfolding stoul
parse_length none = ok 0
parse_length (some inside) = do n ← stoul (pop_back inside); ok (n % 2 ^ 32)

-- The body of the loop of `deserializeSchema`.
unfoldable pub parse_column : List ℕ → Outcome ColumnSchema
unfolding read_word find_paren parse_length parse_type
parse_column token = do
  let (column_name, rest) = read_word token
  let (type_name, inside) = find_paren (read_word rest).0
  length ← parse_length inside
  type ← parse_type type_name
  ok (record { name = column_name; type = type; len = length })

unfoldable pub parse_columns : List (List ℕ) → Outcome Schema
unfolding parse_column
parse_columns [] = ok []
parse_columns (token ∷ tokens) = do
  column ← parse_column token
  schema ← parse_columns tokens
  ok (column ∷ schema)

-- `deserializeSchema`
unfoldable pub deserialize_schema : List ℕ → Outcome Schema
unfolding split_tokens parse_columns
deserialize_schema text = parse_columns (split_tokens text)
