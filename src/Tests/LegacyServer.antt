-- ===== src/Tests/LegacyServer.antt =====
-- The commands and the input of the server in a single file.
use iec104_server_and_modbus.Base.{
  ℕ, ◌≡◌, ◌≢◌, ◌⊎◌, inr, refl, String, str_eq, eq_iff, Bool, true, false, ◌||◌, Option, none, some,
  List, [], ◌∷◌, ◌++◌, set, ◌==◌, if◌then◌else◌, arith,
}
use iec104_server_and_modbus.Cjson.{Cjson}
use iec104_server_and_modbus.Iec.{
  activation, unknown_cot, single_point_with_cp56, double_point_with_cp56, short,
}
use iec104_server_and_modbus.Iec.TypeId
use iec104_server_and_modbus.Data.Manager.{DynamicIoaConfig, find_ioa_index}
use iec104_server_and_modbus.Command.Select.{empty_table}
use iec104_server_and_modbus.Legacy.Command.{
  CommandObject, Request, Addresses, is_found, legacy_asdu_handler,
}
use iec104_server_and_modbus.Legacy.Command.Protocol.{
  Activated, Refused, legacy_asdu_handler_protocol,
}
use iec104_server_and_modbus.Legacy.Command.Same.{HandlersAgree, legacy_asdu_handler-same}
use iec104_server_and_modbus.Legacy.Points.{Entry, Points, exceeds_deadband, shutdown}
use iec104_server_and_modbus.Legacy.Server.{
  LegacyData, LegacySurroundings, Conversions, spontaneous_report, process_m_sp_tb_1,
  process_m_dp_tb_1, process_m_me_nc_1,
}
use iec104_server_and_modbus.Legacy.Loop.{run_server_loop}
use iec104_server_and_modbus.Legacy.Reports.{
  Reports, sent_now, process_points-Reports, process_m_me_nc_1-stale,
}
use iec104_server_and_modbus.Legacy.Ends.{run_server_loop-ends}
use iec104_server_and_modbus.Tests.Fixtures.{integers, settings, encoder}

abbrev three : DynamicIoaConfig
three = record { ioa_list = some (5 ∷ 6 ∷ 7 ∷ []); count = 3 }

abbrev addresses : Addresses
addresses = record { c_sc_na_1 = three; c_dc_na_1 = three; c_se_na_1 = three; c_se_nc_1 = three }

abbrev object : Bool → CommandObject
object select = record { ioa = 6; is_select = select; value = 1; qualifier = 0 }

abbrev double_request : Request
double_request = record {
  type_id = TypeId.c_dc_na_1;
  cot = activation;
  is_negative = false;
  element = some (object true);
}

legacy_asdu_handler_protocol_example :
    let res = legacy_asdu_handler "sbo" 7 1000 empty_table addresses double_request in
    (res.1 ≡ true)
    × (((double_request.cot ≡ activation)
          × Activated "sbo" 7 1000 empty_table addresses double_request res.0)
        ⊎ ((double_request.cot ≢ activation)
            × Refused "sbo" 7 1000 empty_table unknown_cot false res.0))
legacy_asdu_handler_protocol_example =
    legacy_asdu_handler_protocol "sbo" 7 1000 empty_table addresses double_request

legacy_asdu_handler-same_example :
    HandlersAgree "sbo" 7 1000
      (object false)
      addresses
      (record { select_table = empty_table; contexts = [] })
      TypeId.c_se_nc_1
unfolding find_ioa_index is_found
legacy_asdu_handler-same_example =
    legacy_asdu_handler-same "sbo" 7 1000 (object false) addresses
      (record { select_table = empty_table; contexts = [] }) TypeId.c_se_nc_1 three (inr refl) refl
      refl

abbrev pub online : LegacySurroundings
online = record { connected = true; still_connected = true; now = 9000; cp56 = 77 }

abbrev pub conversions : Conversions
conversions = record {
  to_uint64 = λ x. x;
  to_int = λ x. x;
  set_value = λ b v. record b { value = v };
}

abbrev pub off : Entry
off = record { value = 0; qualifier = 0 }

abbrev pub points : Points
points = record {
  config = three;
  entries = off ∷ off ∷ off ∷ [];
  last_offline_update = some (0 ∷ 0 ∷ 0 ∷ []);
  past_the_array = false;
}

process_points-Reports_example :
    Reports 1 128
      (sent_now integers settings encoder conversions online refl
        (single_point_with_cp56 6 true 128 77))
      points
      1
      off
      (process_m_sp_tb_1 integers settings encoder conversions online 1 6 128 points)
    × Reports 1 128
        (sent_now integers settings encoder conversions online refl
          (double_point_with_cp56 6 1 128 77))
        points
        1
        off
        (process_m_dp_tb_1 integers settings encoder conversions online 1 6 128 points)
unfolding find_ioa_index
process_points-Reports_example =
    process_points-Reports integers settings encoder conversions online refl 1 6 128 1 points off
      (omega arith) refl refl

process_m_me_nc_1-stale_example :
    let r = process_m_me_nc_1 integers settings encoder conversions online 0 6 128 points in
    (r.0.entries ≡ set points.entries 1 (record { value = 0; qualifier = 128 }))
    × (r.1 ≡ spontaneous_report integers settings encoder conversions online (short 6 0 128))
unfolding find_ioa_index exceeds_deadband
process_m_me_nc_1-stale_example =
    process_m_me_nc_1-stale integers settings encoder conversions online 0 6 128 1 points off
      (omega arith) refl refl refl (λ e. ground arith) refl refl

-- A JSON library that knows one text: the shutdown, by a type that there is not.
abbrev shutdown_member : ℕ → String → Option ℕ
shutdown_member item key =
    if str_eq key "type"
    then some 1
    else if str_eq key "value"
    then some 2
    else if str_eq key "address"
    then some 3
    else if str_eq key "qualifier"
    then some 4
    else none

abbrev shutdown_documents : Cjson
shutdown_documents = record {
  Item = ℕ;
  parse = λ s. if str_eq s "shutdown" then some 0 else none;
  get_object_item = shutdown_member;
  get_object_item_case_sensitive = shutdown_member;
  string = λ item. item == 1 || item == 4;
  number = λ item. item == 2 || item == 3;
  array = λ _. false;
  object = λ item. item == 0;
  boolean = λ _. false;
  true_item = λ _. false;
  valuestring = λ item. if item == 1 then some "M_DP_NA_1" else some "IEC60870_QUALITY_GOOD";
  valueint = λ _. 0;
  valuedouble = λ _. 0;
  children = λ _. [];
}

abbrev pub station : LegacyData
station = record {
  m_sp_tb_1 = points;
  m_dp_tb_1 = points;
  m_me_td_1 = record points { last_offline_update = none };
  m_it_tb_1 = record {
    config = record { ioa_list = none; count = 0 };
    entries = [];
    past_the_array = false;
  };
  m_sp_na_1 = points;
  m_me_nd_1 = record points { last_offline_update = none };
  m_me_nc_1 = points;
}

differ : (s t : String) → str_eq s t ≡ false → s ≢ t
differ s t h e = let same : str_eq s t ≡ true = (eq_iff s t).1 e in cc

-- A line that is no JSON comes first.
abbrev rounds : List (LegacySurroundings × Option String)
rounds = (online, some "noise") ∷ (online, none) ∷ []

run_server_loop-ends_example :
    let first =
      run_server_loop conversions shutdown_documents integers settings encoder rounds station in
    run_server_loop conversions shutdown_documents integers settings encoder
      (rounds ++ ((online, some "shutdown") ∷ ((online, some "noise") ∷ [])))
      station
    ≡ (false, first.1, first.2 ++ (shutdown ∷ []))
unfolding run_server_loop
run_server_loop-ends_example =
    run_server_loop-ends conversions shutdown_documents integers settings encoder rounds
      ((online, some "noise") ∷ []) online "shutdown" station 0 "M_DP_NA_1" "IEC60870_QUALITY_GOOD"
      0 refl refl
      (record {
        type_item = 1;
        type_found = refl;
        type_text = refl;
        type_name = refl;
        value_item = 2;
        value_found = refl;
        value_number = refl;
        value_double = refl;
        address_item = 3;
        address_found = refl;
        address_number = refl;
        qualifier_item = 4;
        qualifier_found = refl;
        qualifier_text = refl;
        qualifier_name = refl;
      })
      (
        differ "M_DP_NA_1" "M_SP_TB_1" refl,
        (
          differ "M_DP_NA_1" "M_DP_TB_1" refl,
          (
            differ "M_DP_NA_1" "M_ME_TD_1" refl,
            (
              differ "M_DP_NA_1" "M_IT_TB_1" refl,
              (differ "M_DP_NA_1" "M_ME_NC_1" refl, (differ "M_DP_NA_1" "M_SP_NA_1" refl, tt)),
            ),
          ),
        ),
      )
      refl
