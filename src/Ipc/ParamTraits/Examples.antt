-- ===== src/Ipc/ParamTraits/Examples.antt =====
-- The theorems on parameters at concrete inputs.
use lib_hh_old.Common.{
  ℕ, ◌<◌, ◌≡◌, ◌^◌, ◌/◌, ◌-◌, refl, arith, some, none, true, false, List, [], ◌∷◌, ◌++◌, length,
  All,
}
use lib_hh_old.Common.Bytes.{le_value, le_bytes, zeros}
use lib_hh_old.Common.Slices.{load}
use lib_hh_old.Common.Int.{ℤ, IsInt, pos, negsuc, ltb_ℤ, from_int, to_int}
use lib_hh_old.Base.Pickle.{contents}
use lib_hh_old.Base.Pickle.Layout.{written}
use lib_hh_old.Base.Pickle.Plain.{plain, seven, seven_block, seven-IsOwned}
use lib_hh_old.Base.PickleIterator.{PickleIterator}
use lib_hh_old.Base.PickleIterator.Reads.{Ahead}
use lib_hh_old.Base.PickleItems.{Item, encode}
use lib_hh_old.Ipc.Message.{
  Message, find_next, new_message, view_message, routing_id, message_type, flags, header_field,
}
use lib_hh_old.Ipc.Message.Fields.{IsWritable, HeaderSet}
use lib_hh_old.Ipc.ParamTraits.{
  ParamTraits, int_param, string_param, vector_param, map_param, schema_write, schema_read,
  read_vector, read_bools, read_set, read_map,
}
use lib_hh_old.Ipc.ParamTraits.Codec.{IsCodec, Puts}
use lib_hh_old.Ipc.ParamTraits.Single.{int_param-IsCodec, string_param-IsCodec}
use lib_hh_old.Ipc.ParamTraits.Many.{encode_counted, vector_param-IsCodec}
use lib_hh_old.Ipc.ParamTraits.Ordered.{IsAscending, by_key, encode_pair, map_param-IsCodec}
use lib_hh_old.Ipc.ParamTraits.Schema.{schema_read-schema_write}
use lib_hh_old.Ipc.ParamTraits.Bounds.{Kept, int_param-StaysInBounds}
use lib_hh_old.Ipc.ParamTraits.Sizes.{Gives, Fits, read_vector-StaysInBounds}
use lib_hh_old.Ipc.ParamTraits.Refusals.{read_containers-refuse_negative}
use lib_hh_old.Ipc.ParamTraits.Nested.{write_message, read_message}
use lib_hh_old.Ipc.ParamTraits.Nested.RoundTrip.{encode_message, read_message-write_message}

abbrev encode_int : ℤ → List ℕ
encode_int z = encode (Item.int z)

abbrev encode_text : List ℕ → List ℕ
encode_text s = encode (Item.string s)

-- `std::vector<int>`, `std::set<int>` and `std::map<int, std::string>`.
vector_param-IsCodec_example :
    IsCodec
      (vector_param int_param 12)
      (λ xs. (length xs < 2 ^ 30) × (length xs < (2 ^ 31 - 1) / 4) × All IsInt xs)
      (encode_counted encode_int)
vector_param-IsCodec_example = vector_param-IsCodec int_param IsInt encode_int int_param-IsCodec 12

map_param-IsCodec_example :
    IsCodec
      (map_param ltb_ℤ int_param (string_param 24) 8)
      (λ m.
        (length m < 2 ^ 30)
        × IsAscending (by_key ltb_ℤ) m
        × All (λ x. IsInt x.0 × (length x.1 < 2 ^ 30)) m)
      (encode_counted (encode_pair encode_int encode_text))
map_param-IsCodec_example =
    map_param-IsCodec ltb_ℤ int_param (string_param 24) IsInt (λ s. length s < 2 ^ 30) encode_int
      encode_text int_param-IsCodec (string_param-IsCodec 24) 8

abbrev ints : List ℤ
ints = pos 3 ∷ negsuc 4 ∷ []

abbrev vector : ParamTraits (List ℤ)
vector = vector_param int_param 12

schema_read-schema_write_example :
    (m m' : Message) × (bytes : List ℕ) × (new_message plain (negsuc 1) 513 ≡ some m)
    × (schema_write vector plain ints m ≡ some m')
    × (contents m'.pickle ≡ some bytes)
    × (find_next (bytes ++ (9 ∷ [])) ≡ record {
      message_size = length bytes;
      message_found = true;
      pickle_end = some (length bytes);
      message_end = some (length bytes);
    })
    × (routing_id (view_message (bytes ++ (9 ∷ [])) (length bytes)) ≡ some (negsuc 1))
    × (message_type (view_message (bytes ++ (9 ∷ [])) (length bytes)) ≡ some 513)
    × (schema_read vector [] (view_message (bytes ++ (9 ∷ [])) (length bytes)) ≡ some ints)
unfolding encode le_bytes
schema_read-schema_write_example =
    schema_read-schema_write vector plain (negsuc 1) 513 ints (9 ∷ []) vector_param-IsCodec_example
      (omega arith) (omega arith) (omega arith, omega arith, (omega arith, (omega arith, tt)))
      (omega arith)

-- Four bytes that state the length -2.
abbrev minus_two : PickleIterator
minus_two = record {
  payload = 254 ∷ 255 ∷ 255 ∷ 255 ∷ [];
  is_null = false;
  read_index = 0;
  end_index = 4;
}

minus_two-Ahead : Ahead minus_two (254 ∷ 255 ∷ 255 ∷ 255 ∷ [])
minus_two-Ahead = record {
  ordered = omega arith;
  bounded = omega arith;
  inside = omega arith;
  present = refl;
  rest_eq = refl;
}

read_containers-refuse_negative_example :
    ((read_vector int_param [] minus_two).0 ≡ none)
    × ((read_bools [] minus_two).0 ≡ none)
    × ((read_set ltb_ℤ int_param [] minus_two).0 ≡ none)
    × ((read_map ltb_ℤ int_param (string_param 24) [] minus_two).0 ≡ none)
unfolding from_int le_bytes
read_containers-refuse_negative_example =
    read_containers-refuse_negative int_param ltb_ℤ int_param (string_param 24) ltb_ℤ 1 [] minus_two
      [] [] [] (omega arith) minus_two-Ahead

-- A message with one word of payload.
abbrev inner_block : List ℕ
inner_block =
    4 ∷ 0 ∷ 0 ∷ 0 ∷ 7 ∷ 0 ∷ 0 ∷ 0 ∷ 1 ∷ 2 ∷ 0 ∷ 0 ∷ 1 ∷ 0 ∷ 0 ∷ 0 ∷ 5 ∷ 6 ∷ 7 ∷ 8 ∷ zeros 60

abbrev empty_block : List ℕ
empty_block = zeros 80

abbrev message_of : List ℕ → ℕ → Message
message_of block n = record {
  pickle = record {
    header = some block;
    header_size = 16;
    capacity_after_header = 64;
    write_offset = n;
  };
  sender_pid = pos 0;
}

inner-HeaderSet : HeaderSet (pos 7) 513 1 (message_of inner_block 4) inner_block
unfolding routing_id message_type flags header_field load le_value to_int
inner-HeaderSet = record {
  writable = record {
    owned = record {
      header_eq = refl;
      header_aligned = omega arith;
      header_whole = omega arith;
      header_bound = omega arith;
      capacity_aligned = omega arith;
      capacity_bound = omega arith;
      filled = refl;
      within = omega arith;
      offset_aligned = omega arith;
      in_sync = refl;
    };
    header_eq = refl;
  };
  routing_eq = refl;
  type_eq = refl;
  flags_eq = refl;
}

empty-IsWritable : IsWritable (message_of empty_block 0) empty_block
unfolding le_value
empty-IsWritable = record {
  owned = record {
    header_eq = refl;
    header_aligned = omega arith;
    header_whole = omega arith;
    header_bound = omega arith;
    capacity_aligned = omega arith;
    capacity_bound = omega arith;
    filled = refl;
    within = omega arith;
    offset_aligned = omega arith;
    in_sync = refl;
  };
  header_eq = refl;
}

abbrev inner_encoding : List ℕ
inner_encoding = encode_message (pos 7) 513 1 (5 ∷ 6 ∷ 7 ∷ 8 ∷ [])

read_message-write_message_example :
    Puts seven seven_block inner_encoding (write_message plain (message_of inner_block 4) seven)
    × ((it : PickleIterator) (rest : List ℕ)
        → Ahead it (inner_encoding ++ rest)
        → (r' : Message) × (rb' : List ℕ) × (it' : PickleIterator) × (read_message plain
              (message_of empty_block 0)
              it
            ≡ some (some r', it'))
          × HeaderSet (pos 7) 513 1 r' rb'
          × (written r'.pickle rb' ≡ 5 ∷ 6 ∷ 7 ∷ 8 ∷ [])
          × Ahead it' rest)
unfolding encode le_bytes
read_message-write_message_example =
    read_message-write_message plain (pos 7) 513 1 (message_of inner_block 4) inner_block seven
      seven_block (message_of empty_block 0) empty_block inner-HeaderSet (omega arith) (omega arith)
      (omega arith) (omega arith) seven-IsOwned (omega arith) empty-IsWritable refl

-- Eight bytes that state the length 1 and hold the number 7.
abbrev one_seven : PickleIterator
one_seven = record {
  payload = 1 ∷ 0 ∷ 0 ∷ 0 ∷ 7 ∷ 0 ∷ 0 ∷ 0 ∷ [];
  is_null = false;
  read_index = 0;
  end_index = 8;
}

read_vector-StaysInBounds_example :
    Kept one_seven (read_vector int_param [] one_seven)
    × Gives (Fits int_param) (read_vector int_param [] one_seven)
read_vector-StaysInBounds_example =
    read_vector-StaysInBounds int_param (omega arith) [] one_seven int_param-StaysInBounds
      (record { ordered = omega arith; bounded = omega arith })
