-- ===== src/Shifter/Instances.antt =====
-- Bits cut from a list, and entries of one bit: instances of what the shifts take from Amaranth.
use transactron.Prelude.{Bool, false, [], ◌∷◌, length, get_or, take, drop, ◌≡◌, refl}
use transactron.Shifter.{PartSelect, EntryShape}

abbrev pub part : PartSelect
part = record {
  bit_select = λ v offset width. take width (drop offset v);
  inside = λ v offset width h. refl;
}

pub length-bit : (a : Bool) → length (a ∷ []) ≡ 1
length-bit a = refl

abbrev pub one_bit : EntryShape Bool
one_bit = record {
  width = 1;
  cast = λ a. a ∷ [];
  of_bits = λ bits. get_or bits 0 false;
  length-cast = length-bit;
  of_bits-cast = λ a. refl;
}
