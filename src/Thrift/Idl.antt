-- ===== src/Thrift/Idl.antt =====
-- protos/thrift/thrift_idl.go: the names of the fields, by method. The parser of the IDL files is
-- the vendored go-thrift: `ParseFile` is an argument. A map of its results is gone through in the
-- order of its list.
use packetbeat.Base.{
  ℕ, zero, suc, ◌+◌, List, [], ◌∷◌, Option, none, some, length, set, ltb, if◌then◌else◌,
}
use packetbeat.Base.GoMap.{put, bytes_instance}
use packetbeat.Base.Int.{ℤ, pos, negsuc, pos_part}
use packetbeat.Base.Text.{Bytes}
use packetbeat.Thrift.Message.{ParserField, ParserMethod, ParserService, ThriftIdlMethod, ThriftIdl}

-- `ParseFile`: the parsed files by name, each as its services, or an error.
abbrev pub ParseFile : Type 0
ParseFile = Bytes → Option (List (Bytes × List (Bytes × ParserService)))

-- The largest id, or 0.
unfoldable pub max_id : ℕ → List ParserField → ℕ
max_id max [] = max
max_id max (f ∷ fs) = max_id (if ltb max (pos_part f.id) then pos_part f.id else max) fs

-- `make([]*string, n, n)`, where there is memory for it.
unfoldable pub nils : ℕ → List (Option Bytes)
nils zero = []
nils (suc n) = none ∷ nils n

-- `output[id] = &name`, or a panic.
unfoldable pub set_name : ℤ → Bytes → List (Option Bytes) → Option (List (Option Bytes))
set_name (pos i) name output =
    if ltb i (length output) then some (set output i (some name)) else none
set_name (negsuc i) name output = none

unfoldable pub fill_names : List ParserField → List (Option Bytes) → Option (List (Option Bytes))
fill_names [] output = some output
fill_names (f ∷ fs) output =
    elim (if ltb 0 (length f.name) then set_name f.id f.name output else some output) [
      | none ↦ none
      | some output' ↦ fill_names fs output'
    ]

-- `fieldsToArrayById`, or a panic.
unfoldable pub fields_to_array_by_id : List ParserField → Option (List (Option Bytes))
fields_to_array_by_id [] = some []
fields_to_array_by_id (f ∷ fs) = fill_names (f ∷ fs) (nils (max_id 0 (f ∷ fs) + 1))

-- The entry of a method.
unfoldable pub idl_method : ParserService → ParserMethod → Option ThriftIdlMethod
idl_method service method = elim (fields_to_array_by_id method.arguments) [
  | none ↦ none
  | some params ↦ elim (fields_to_array_by_id method.exceptions) [
    | none ↦ none
    | some exceptions ↦
        some
          (record { service = service; method = method; params = params; exceptions = exceptions })
  ]
]

-- The loops of `BuildMethodsMap`, over the methods, the services and the files; a later method of
-- the same name takes the place of an earlier one.
unfoldable pub add_methods :
    ParserService → List (Bytes × ParserMethod) → ThriftIdl → Option ThriftIdl
add_methods service [] output = some output
add_methods service ((key, method) ∷ methods) output = elim (idl_method service method) [
  | none ↦ none
  | some entry ↦ add_methods service methods (put method.name entry output)
]

unfoldable pub add_services : List (Bytes × ParserService) → ThriftIdl → Option ThriftIdl
add_services [] output = some output
add_services ((key, service) ∷ services) output =
    elim (add_methods service service.methods output) [
      | none ↦ none
      | some output' ↦ add_services services output'
    ]

unfoldable pub add_files :
    List (Bytes × List (Bytes × ParserService)) → ThriftIdl → Option ThriftIdl
add_files [] output = some output
add_files ((key, services) ∷ files) output = elim (add_services services output) [
  | none ↦ none
  | some output' ↦ add_files files output'
]

-- `BuildMethodsMap`, or a panic.
unfoldable pub build_methods_map : List (Bytes × List (Bytes × ParserService)) → Option ThriftIdl
build_methods_map files = add_files files []

-- `for fname, parsedFile := range files_map { output[fname] = *parsedFile }`
unfoldable pub put_files :
    List (Bytes × List (Bytes × ParserService))
    → List (Bytes × List (Bytes × ParserService))
    → List (Bytes × List (Bytes × ParserService))
put_files [] output = output
put_files ((name, services) ∷ files) output = put_files files (put name services output)

-- `ReadFiles`; `none` is an error.
unfoldable pub read_files :
    ParseFile
    → List Bytes
    → List (Bytes × List (Bytes × ParserService))
    → Option (List (Bytes × List (Bytes × ParserService)))
read_files parse_file [] output = some output
read_files parse_file (file ∷ files) output = elim (parse_file file) [
  | none ↦ none
  | some parsed ↦ read_files parse_file files (put_files parsed output)
]

-- `NewThriftIdl`: no IDL where there are no files, an IDL, an error, or a panic.
pub data NewIdl : Type 0 where
  no_idl idl_error idl_panics : NewIdl
  new_idl : ThriftIdl → NewIdl

unfoldable pub built : Option ThriftIdl → NewIdl
built none = idl_panics
built (some idl) = new_idl idl

unfoldable pub new_thrift_idl : ParseFile → List Bytes → NewIdl
new_thrift_idl parse_file [] = no_idl
new_thrift_idl parse_file (file ∷ files) = elim (read_files parse_file (file ∷ files) []) [
  | none ↦ idl_error
  | some parsed ↦ built (build_methods_map parsed)
]
