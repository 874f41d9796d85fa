-- ===== src/Schema/Tests.antt =====
-- Runs of the texts of schemas, and the theorems at concrete inputs.
use relvec_db.Common.{◌≡◌, ◌≢◌, refl, [], ◌∷◌, ◌++◌, none, All, arith}
use relvec_db.Common.Decimal.{digits, read_digits}
use relvec_db.Common.Outcome.{ok, fail, runtime_error, invalid_argument, thrown_text}
use relvec_db.Common.Texts.{bytes}
use relvec_db.Row.{Schema, ColumnSchema, ColumnType}
use relvec_db.Schema.{schema_text, deserialize_schema}
use relvec_db.Schema.Columns.{IsTextual}
use relvec_db.Schema.RoundTrip.{deserialize_schema-schema_text}
use relvec_db.Schema.Accessor.{new_accessor, get_column_or_null, get_column_or_throw, add_column}
use relvec_db.Schema.Accessor.Refine.{built, last_named, or_thrown_column, get_column-last_named}

abbrev people : Schema
people =
    record { name = bytes "id"; type = ColumnType.uint64; len = 0 }
    ∷ record { name = bytes "name"; type = ColumnType.varchar; len = 128 }
    ∷ []

text_run : schema_text people ≡ bytes "id uint64, name varchar(128)"
unfolding schema_text digits
text_run = refl

read_run : deserialize_schema (bytes "id uint64,name   varchar(128)") ≡ ok people
unfolding deserialize_schema read_digits
read_run = refl

bad_type_run : deserialize_schema (bytes "id uint64,name text") ≡ fail runtime_error
unfolding deserialize_schema
bad_type_run = refl

bad_length_run : deserialize_schema (bytes "name varchar(") ≡ fail invalid_argument
unfolding deserialize_schema
bad_length_run = refl

people-IsTextual : All IsTextual people
people-IsTextual = (
  record { named = cc; name_plain = ground arith; type_named = cc; length_fits = omega arith },
  (
    record { named = cc; name_plain = ground arith; type_named = cc; length_fits = omega arith },
    tt,
  ),
)

deserialize_schema-schema_text_example : deserialize_schema (schema_text people) ≡ ok people
deserialize_schema-schema_text_example = deserialize_schema-schema_text people people-IsTextual

abbrev embedding : ColumnSchema
embedding = record { name = bytes "e"; type = ColumnType.vector; len = 16 }

-- Two columns of one name: the later one is found.
abbrev doubled : Schema
doubled = people ++ record { name = bytes "id"; type = ColumnType.int64; len = 0 } ∷ []

column_run :
    get_column_or_throw (new_accessor doubled) (bytes "id")
    ≡ ok (record { name = bytes "id"; type = ColumnType.int64; len = 0 })
unfolding get_column_or_throw new_accessor
column_run = refl

add_column_run : add_column embedding (new_accessor people) ≢ fail thrown_text
unfolding add_column new_accessor
add_column_run e = cc e

get_column-last_named_example :
    (get_column_or_null (new_accessor doubled) (bytes "id")
      ≡ ok (last_named (bytes "id") doubled none))
    × (get_column_or_throw (new_accessor doubled) (bytes "id")
        ≡ or_thrown_column (last_named (bytes "id") doubled none))
unfolding new_accessor
get_column-last_named_example = get_column-last_named (built doubled) (bytes "id")
