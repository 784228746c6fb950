-- ===== src/Thrift/CutStructs.antt =====
-- protos/thrift/thrift.go, `readStruct` on a struct whose data end behind a field, as they do where a
-- segment ends there.
use packetbeat.Base.{
  ℕ, zero, suc, ◌+◌, ◌<◌, ◌++◌, ◌≡◌, refl, ap, ◌∙◌, false, List, [], ◌∷◌, length, drop, length-drop,
  ltb, arith,
}
use packetbeat.Base.Text.{Bytes}
use packetbeat.Thrift.{round_field, after_field}
use packetbeat.Thrift.Message.{
  Library, IsLibrary, Options, ThriftField, ThriftMessage, panicked, crashed, map_read,
  struct_reader,
}
use packetbeat.Thrift.Values.{
  in_struct, read_struct_field, struct_loop, read_struct, run_reader, read_with,
}
use packetbeat.Thrift.Encoding.{
  Fields, stop, field, type_of, kind, count_fields, u16_bytes, encode, show, IsValue, AreFields,
}
use packetbeat.Thrift.Steps.{drop-behind, func_readers_by_type-type_of, struct_loop-step}
use packetbeat.Thrift.RoundTrip.{value-Reads}
use packetbeat.Thrift.Calls.{among}

-- The fields, without the mark of the end.
unfoldable pub encode_open : Fields → Bytes
encode_open stop = []
encode_open (field id v fs) = type_of (kind v) ∷ (u16_bytes id ++ (encode v ++ encode_open fs))

module _ (lib : Library) (ok : IsLibrary lib) (o : Options) where
  open_struct_loop :
      (fs : Fields) (fuel : ℕ) (d : Bytes) (offset : ℕ) (before : List ThriftField) (left : ℕ)
      → count_fields fs < left
      → 0 < length d
      → AreFields lib o fs
      → drop offset d ≡ encode_open fs
      → length d < suc fuel
      → struct_loop lib o (run_reader lib o fuel) d left offset before ≡ crashed
  unfolding struct_loop encode_open IsValue
  open_struct_loop fs fuel d offset before zero n z i e h = absurd (omega arith)
  open_struct_loop stop fuel d offset before (suc left) n z i e h =
      let some_data : ltb (length d) 1 ≡ false = ground arith in rw (struct_loop, some_data, e) refl
  open_struct_loop (field id v fs) fuel d offset before (suc left) n z i e h =
      let head = type_of (kind v) ∷ u16_bytes id in
      let f : ThriftField = record { type = type_of (kind v); id = id; value = show lib o v } in
      let size = ap length e in
      struct_loop-step lib ok o (run_reader lib o fuel) d (kind v) id left offset _ (show lib o v) _
        before z e
        (value-Reads lib ok o v fuel (encode_open fs) i.1
          (omega (arith, size, length-drop offset d)))
      ∙ open_struct_loop fs fuel d (offset + (3 + length (encode v))) (before ++ (f ∷ [])) left
          (omega arith) z i.2
          (ap (λ k. drop k d) (omega arith)
            ∙ drop-behind offset d (head ++ encode v) (encode_open fs) e)
          h

-- A struct of one field at least whose data end behind a field, at any depth of fields before: the
-- reader panics, where it should wait for the rest, and so does the parser at a field of a message
-- that is such a struct.
pub cut_struct_panics :
    (lib : Library) (o : Options) (p id : ℕ) (fs : Fields) (m : ThriftMessage) (d : Bytes)
    → IsLibrary lib
    → AreFields lib o fs
    → 0 < count_fields fs
    → count_fields fs < o.drop_after_n_struct_fields
    → drop p d ≡ type_of struct_reader ∷ (u16_bytes id ++ encode_open fs)
    → (read_with lib o struct_reader (encode_open fs) ≡ crashed)
      × (round_field lib o d (among p m) ≡ panicked)
unfolding read_with run_reader read_struct round_field read_struct_field after_field encode_open
cut_struct_panics lib o p id fs m d ok i n below e =
    let long : 0 < length (encode_open fs) = open_long fs n in
    let panics : read_with lib o struct_reader (encode_open fs) ≡ crashed =
      ap (map_read (in_struct o))
        (open_struct_loop lib ok o fs _ (encode_open fs) 0 [] _ below long i refl (omega arith)) in
    let two : ltb (length (u16_bytes id ++ encode_open fs)) 2 ≡ false = ground arith in
    (
      panics,
      rw
          (
            round_field,
            e,
            read_struct_field,
            two,
            func_readers_by_type-type_of struct_reader,
            panics,
          )
          refl,
    )
  where
    open_long : (fs' : Fields) → 0 < count_fields fs' → 0 < length (encode_open fs')
    open_long stop h = absurd (omega arith)
    open_long (field id' v fs') h = omega arith
