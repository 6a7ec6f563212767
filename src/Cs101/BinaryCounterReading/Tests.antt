-- ===== src/Cs101/BinaryCounterReading/Tests.antt =====
-- A counter reading of -2 in a place that was used before.
use lib.Prelude.{◌≡◌, refl, true, false, arith}
use lib.Cs101.BinaryCounterReading.{
  BinaryCounterReading, get_value, set_value, get_sequence_number, set_sequence_number, has_carry,
  set_carry, is_adjusted, set_adjusted, is_invalid, set_invalid, create,
}
use lib.Cs101.BinaryCounterReading.Fields.{create-fields}

abbrev used : BinaryCounterReading
used = record { octet_0 = 1; octet_1 = 2; octet_2 = 3; octet_3 = 4; octet_4 = 255 }

used_created :
    create used 4294967294 17 true false true
    ≡ record { octet_0 = 254; octet_1 = 255; octet_2 = 255; octet_3 = 255; octet_4 = 177 }
unfolding create set_value set_sequence_number set_carry set_adjusted set_invalid
used_created = refl

create-fields_example :
    (get_value (create used 4294967294 17 true false true) ≡ 4294967294)
    × (get_sequence_number (create used 4294967294 17 true false true) ≡ 17)
    × (has_carry (create used 4294967294 17 true false true) ≡ true)
    × (is_adjusted (create used 4294967294 17 true false true) ≡ false)
    × (is_invalid (create used 4294967294 17 true false true) ≡ true)
create-fields_example =
    create-fields used 4294967294 17 true false true (omega arith) (omega arith) (omega arith)
