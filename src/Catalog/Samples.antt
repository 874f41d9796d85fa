-- ===== src/Catalog/Samples.antt =====
-- A schema that the tests of the catalog and of the database save.
use relvec_db.Common.{◌∷◌, [], arith}
use relvec_db.Common.Texts.{bytes}
use relvec_db.Row.{Schema, ColumnType}
use relvec_db.Catalog.RoundTrip.{IsStorable}

abbrev pub people : Schema
people =
    record { name = bytes "id"; type = ColumnType.uint64; len = 0 }
    ∷ record { name = bytes "name"; type = ColumnType.varchar; len = 128 }
    ∷ []

pub people-IsStorable : IsStorable people
people-IsStorable = record {
  some_column = omega arith;
  columns = (
    record { type_saved = cc; name_short = omega arith; length_fits = omega arith },
    (record { type_saved = cc; name_short = omega arith; length_fits = omega arith }, tt),
  );
  few = omega arith;
  room = omega arith;
}
