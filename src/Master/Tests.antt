-- ===== src/Master/Tests.antt =====
-- master/persistent_kv: runs on a page of a new file.
use relvec_db.Common.{List, ap, ◌≤◌, ◌<◌, ◌⊎◌, ◌≡◌, refl, [], ◌∷◌, arith}
use relvec_db.Common.Ranges.{range}
use relvec_db.Common.Outcome.{ok, fail, runtime_error}
use relvec_db.Master.Page.{Bytes, get_by_index, total}
use relvec_db.Master.Storage.{Text, KvStorage, load, load_pairs, set, empty_maps, assign}
use relvec_db.Master.Storage.Load.{load-set}
use relvec_db.Master.Balancer.{Position, allocate, insert}
use relvec_db.Master.Balancer.Allocate.{Distinct, Handed, bytes_of, all_chunks, allocate_lem}

-- The bytes of a new file.
abbrev new_file : Bytes
new_file j = 0

abbrev new_storage : KvStorage
new_storage = record { page = new_file; keys = 0; tables = empty_maps }

abbrev table : Text
table = 116 ∷ 97 ∷ 98 ∷ []

abbrev place : Text
place = 65 ∷ 58 ∷ 200 ∷ []

load-set_example :
    (s' : KvStorage) × (t : KvStorage) × (set table place new_storage ≡ ok s')
    × (load s'.page ≡ ok t)
    × (s'.tables.values ≡ assign table place new_storage.tables.values)
    × (t.tables.values ≡ s'.tables.values)
unfolding get_by_index load load_pairs total range
load-set_example =
    load-set new_file 0 table place new_storage refl refl refl
      (omega arith, (omega arith, (omega arith, tt)))
      (omega arith, (omega arith, (omega arith, tt))) (omega arith, omega arith)
      (omega arith, omega arith) (omega arith) (omega arith)

-- Two chunks of a server.
abbrev positions : List Position
positions = record { free = 5; chunk = (place, 1) } ∷ record { free = 3; chunk = (place, 0) } ∷ []

positions-Distinct : Distinct positions
unfolding Distinct
positions-Distinct = ((λ e. absurd (omega (arith, ap (λ c. c.1) e)), tt), (tt, tt))

allocate_lem_example :
    ((6 ≤ bytes_of all_chunks positions) × Handed positions 6)
    ⊎ ((bytes_of all_chunks positions < 6) × (allocate positions 6 ≡ fail runtime_error))
allocate_lem_example = allocate_lem positions 6 positions-Distinct

allocate_run :
    allocate positions 6
    ≡ ok (
      record { free = 5; chunk = (place, 1) } ∷ record { free = 1; chunk = (place, 0) } ∷ [],
      record { free = 2; chunk = (place, 0) } ∷ [],
    )
unfolding allocate insert
allocate_run = refl
