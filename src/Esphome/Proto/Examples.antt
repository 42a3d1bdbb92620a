-- ===== src/Esphome/Proto/Examples.antt =====
-- Runs of internal/esphome/proto.go, and its theorems at concrete inputs.
use overdub.Base.{◌≡◌, refl, true, List, [], ◌∷◌, map, arith}
use overdub.Esphome.Proto.{
  uvarint, read_uvarint, pb_walk, read_field, read_value, done, failed, short_bytes,
}
use overdub.Esphome.Proto.RoundTrip.{
  Field, as_u32, as_boolean, as_str, write_all, visited, pb_walk-write_all,
}
use overdub.Base.Text.{codes}

uvarint_300 : uvarint 300 [] ≡ 0xac ∷ 0x02 ∷ []
unfolding uvarint
uvarint_300 = refl

-- A length that passes the end of the message is refused before anything is cut.
walk_short : pb_walk (0x0a ∷ 5 ∷ 104 ∷ []) ≡ ([], failed (short_bytes 1))
unfolding pb_walk read_field read_value read_uvarint
walk_short = refl

abbrev hello : List Field
hello = as_u32 1 300 ∷ as_boolean 2 true ∷ as_str 3 (codes "dot") ∷ []

pb_walk-write_all_example : pb_walk (write_all hello []) ≡ (map visited hello, done)
pb_walk-write_all_example = pb_walk-write_all hello (omega arith)
