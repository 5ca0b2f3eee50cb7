-- ===== src/Interrogation/Blocks.antt =====
-- json-iec104-server/src/protocol/interrogation.c: the partition of the points of a type into
-- ASDUs. Points are pairs of an address and a value. Loops that advance by a computed amount run on
-- fuel; `none` means that it ran out. An allocation that fails is not modelled.
use iec104_server_and_modbus.Base.{
  ℕ, zero, suc, ◌+◌, ◌-◌, ◌/◌, true, false, Option, none, some, List, [], ◌∷◌, ◌++◌, length, take,
  drop, leb, ltb, ◌==◌, if◌then◌else◌, add_int,
}
use iec104_server_and_modbus.Iec.{
  Asdu, InformationObject, Cot, create_asdu, interrogated_by_station,
}
use iec104_server_and_modbus.Data.Types.{DataValue}
use iec104_server_and_modbus.Data.Manager.{DataTypeContext, entries}
use iec104_server_and_modbus.Interrogation.Objects.{create_io_for_type}
use iec104_server_and_modbus.Interrogation.Encoder.{Encoder}

-- The `int` subtractions are taken at a maximum of 6 and more, where they do not go below 0.
unfoldable pub calc_max_ioas_sq0 : ℕ → ℕ → ℕ
calc_max_ioas_sq0 max_asdu_size io_size = (max_asdu_size - 6) / io_size

unfoldable pub calc_max_ioas_sq1 : ℕ → ℕ → ℕ → ℕ
calc_max_ioas_sq1 max_asdu_size with_ioa no_ioa =
    if leb max_asdu_size (6 + with_ioa) then 1 else (max_asdu_size - 6 - with_ioa) / no_ioa + 1

unfoldable pub get_io_size_no_ioa : ℕ → ℕ
get_io_size_no_ioa with_ioa = with_ioa - 3

abbrev pub Point : Type 0
Point = ℕ × DataValue

-- `ioa_list[i]` with `data_array[i]`, for each i.
abbrev pub zip_points : List ℕ → List DataValue → List Point
zip_points [] vs = []
zip_points (a ∷ as') [] = []
zip_points (a ∷ as') (v ∷ vs) = (a, v) ∷ zip_points as' vs

abbrev pub points : DataTypeContext → List Point
points ctx = zip_points (entries ctx.config.ioa_list) (entries ctx.data_array)

-- How many of the points continue the addresses from `prev` on.
unfoldable pub run_length : ℕ → List Point → ℕ
run_length prev [] = 0
run_length prev ((a, v) ∷ ps) = if a == add_int prev 1 then suc (run_length a ps) else 0

-- The ASDUs of two loops, if both have ended.
unfoldable pub append_sent : Option (List Asdu) → Option (List Asdu) → Option (List Asdu)
append_sent (some xs) (some ys) = some (xs ++ ys)
append_sent _ _ = none

unfoldable pub cons_sent : Asdu → Option (List Asdu) → Option (List Asdu)
cons_sent a none = none
cons_sent a (some sent) = some (a ∷ sent)

module _ (enc : Encoder) (type_id : ℕ) where
  unfoldable pub add_created : Asdu → Option InformationObject → Asdu
  add_created a none = a
  add_created a (some io) = enc.add a io

  -- for (k = 0; k < chunk_len; k++)
  unfoldable pub add_points : Asdu → List Point → Asdu
  unfolding add_created
  add_points a [] = a
  add_points a ((ioa, v) ∷ ps) = add_points (add_created a (create_io_for_type type_id ioa v)) ps

  -- for (j = 0; j < seq_len; j += maxIOAs), on the points of the run from j on.
  unfoldable pub send_chunks : ℕ → Asdu → ℕ → List Point → Option (List Asdu)
  unfolding add_points cons_sent
  send_chunks fuel new max_ioas [] = some []
  send_chunks zero new max_ioas (p ∷ ps) = none
  send_chunks (suc fuel) new max_ioas (p ∷ ps) =
      let chunk_len = if ltb max_ioas (length (p ∷ ps)) then max_ioas else length (p ∷ ps) in
      cons_sent (add_points new (take chunk_len (p ∷ ps)))
        (send_chunks fuel new max_ioas (drop max_ioas (p ∷ ps)))

  -- The body of the outer loop, on a run of consecutive addresses.
  unfoldable pub send_run : ℕ → Cot → ℕ → List Point → Option (List Asdu)
  unfolding send_chunks calc_max_ioas_sq0 calc_max_ioas_sq1 get_io_size_no_ioa
  send_run io_size cot ca run =
      if leb 3 (length run)
      then send_chunks (length run) (create_asdu true cot 0 ca)
          (calc_max_ioas_sq1 enc.max_size io_size (get_io_size_no_ioa io_size)) run
      else send_chunks (length run) (create_asdu false cot 0 ca)
          (calc_max_ioas_sq0 enc.max_size io_size) run

  -- while (i < count), on the points from i on.
  unfoldable pub send_blocks : ℕ → ℕ → Cot → ℕ → List Point → Option (List Asdu)
  unfolding run_length send_run append_sent
  send_blocks fuel io_size cot ca [] = some []
  send_blocks zero io_size cot ca (p ∷ ps) = none
  send_blocks (suc fuel) io_size cot ca ((a, v) ∷ ps) =
      let seq_len = suc (run_length a ps) in
      let rest = send_blocks fuel io_size cot ca (drop seq_len ((a, v) ∷ ps)) in
      append_sent (send_run io_size cot ca (take seq_len ((a, v) ∷ ps))) rest

-- What is sent for a type; the connection and the context are not NULL.
unfoldable pub send_interrogation_for_type : Encoder → ℕ → DataTypeContext → Option (List Asdu)
unfolding send_blocks
send_interrogation_for_type enc asdu ctx =
    if ltb 0 ctx.config.count
    then send_blocks enc ctx.type_id ctx.config.count ctx.type_info.io_size interrogated_by_station
        asdu (points ctx)
    else some []
