-- ===== src/Interrogation/Encoder.antt =====
-- What the server relies on in lib60870: how objects are added to an ASDU.
use iec104_server_and_modbus.Base.{
  ℕ, ◌+◌, ◌*◌, ◌≡◌, Bool, true, false, ◌&&◌, List, [], ◌∷◌, ◌++◌, length, leb, ltb, ◌==◌,
  if◌then◌else◌, All,
}
use iec104_server_and_modbus.Iec.{Asdu, InformationObject, address, object_type}
use iec104_server_and_modbus.Data.Types.{data_type_table}

-- The size of an ASDU's header, and of an object's address.
abbrev pub header_size : ℕ
header_size = 6

abbrev pub ioa_size : ℕ
ioa_size = 3

-- The bytes of `n` objects whose data take `size` bytes each: a sequence has one address.
abbrev pub payload : Bool → ℕ → ℕ → ℕ
payload true n size = ioa_size + n * size
payload false n size = n * (ioa_size + size)

-- Whether `CS101_ASDU_addInformationObject` encodes an object: the first one if it fits; a later
-- one if there are less than 127, it is of the type of the first, in a sequence has the next
-- address, and fits.
abbrev pub accepts_after : ℕ → ℕ → Bool → List InformationObject → InformationObject → Bool
accepts_after size max sequence [] io = leb (header_size + (ioa_size + size)) max
accepts_after size max sequence (first ∷ rest) io =
    ltb (length (first ∷ rest)) 127
    && ((object_type io == object_type first)
        && ((if sequence then address io == address first + length (first ∷ rest) else true)
            && leb (header_size + payload sequence (length (first ∷ rest) + 1) size) max))

-- `alParameters->maxSizeOfASDU`, the size of each type's data, and the addition of an object.
pub record Encoder : Type 0 where
  pub max_size : ℕ
  pub data_size : ℕ → ℕ
  pub add : Asdu → InformationObject → Asdu
  pub add_accepted :
      (a : Asdu) (io : InformationObject)
      → accepts_after (data_size (object_type io)) max_size a.is_sequence a.elements io ≡ true
      → add a io ≡ record a { elements = a.elements ++ (io ∷ []) }
  pub add_refused :
      (a : Asdu) (io : InformationObject)
      → accepts_after (data_size (object_type io)) max_size a.is_sequence a.elements io ≡ false
      → add a io ≡ a

-- The table of data types states the sizes of the library.
abbrev pub HasTableSizes : Encoder → Type 0
HasTableSizes enc = All (λ t. enc.data_size t.type_id + 3 ≡ t.io_size) data_type_table
