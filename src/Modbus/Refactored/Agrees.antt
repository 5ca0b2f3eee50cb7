-- ===== src/Modbus/Refactored/Agrees.antt =====
-- The successor of `process_json` does the same as `process_json` where the holding registers start
-- at address 0.
use iec104_server_and_modbus.Base.{
  ℕ, suc, ◌%◌, ◌^◌, ◌<◌, ◌≡◌, refl, ap, ◌∙◌, String, ◌&&◌, ◌||◌, not, Option, none, some, List, [],
  ◌∷◌, map, set, arith, Bool-cases, Option-cases, inl, inr, int_lt, add_int, sub_int,
}
use iec104_server_and_modbus.Cfloat.{FloatUnit}
use iec104_server_and_modbus.Cjson.{Cjson, holds}
use iec104_server_and_modbus.Modbus.Text.{is_text}
use iec104_server_and_modbus.Modbus.Registers.{
  ByteOrder, order_le, order_be, order_swap, Mapping, swap_bytes, ordered, store_words,
}
use iec104_server_and_modbus.Modbus.Registers
use iec104_server_and_modbus.Modbus.Settings.{Settings}
use iec104_server_and_modbus.Modbus.Command
use iec104_server_and_modbus.Modbus.Command.{
  ServerState, state_running, state_stopped, State, store_register, swapped_if, words_of, confirmed,
  write_value, byte_order_text, write_mapping, update_address, update_members, data_update,
  process_root, process_json, start_command, command_text,
}
use iec104_server_and_modbus.Modbus.Refactored.ByteOrder.{
  Order, le, be, swap, parse_byte_order, copy_words, write_registers,
}
use iec104_server_and_modbus.Modbus.Refactored.JsonCommand
use iec104_server_and_modbus.Modbus.Refactored.JsonCommand.{
  swap_word, assign_word, assign_words, assign_value, order_text, update_mapping, update_fields,
  json_command_update_data, process_command, command_of, json_command_process,
}

abbrev pub as_order : ByteOrder → Order
as_order order_le = le
as_order order_be = be
as_order order_swap = swap

-- The lines printed, in the words of the successor, which refuses every address in one way.
abbrev pub as_output : Command.Output → JsonCommand.Output
as_output Command.stopping = JsonCommand.stopping
as_output Command.already_running = JsonCommand.already_running
as_output Command.starting = JsonCommand.starting
as_output (Command.status s) = JsonCommand.status s
as_output (Command.address_out_of_range a) = JsonCommand.index_out_of_bounds a
as_output Command.index_out_of_bounds = JsonCommand.index_out_of_bounds 0
as_output (Command.updated a t) = JsonCommand.updated a t

abbrev pub as_effect : Command.Effect → JsonCommand.Effect
as_effect none = none
as_effect (some (s, out)) = some (s, map as_output out)

parse_byte_order-as_order :
    (s : Option String) → parse_byte_order s ≡ as_order (Registers.parse_byte_order s)
unfolding parse_byte_order Registers.parse_byte_order
parse_byte_order-as_order none = refl
parse_byte_order-as_order (some s) = ground arith

copy_words-store_words :
    (r : List ℕ) (i : ℕ) (words : List ℕ) → copy_words r i words ≡ store_words r i words
unfolding copy_words store_words
copy_words-store_words r i [] = refl
copy_words-store_words r i (w ∷ words) = rw (copy_words-store_words (set r i w) (suc i) words) refl

write_registers-as_order :
    (bo : ByteOrder) (i x y : ℕ) (r : List ℕ)
    → write_registers i (x ∷ y ∷ []) (as_order bo) r ≡ Registers.write_registers i (x ∷ y ∷ []) bo r
unfolding write_registers Registers.write_registers
write_registers-as_order order_le i x y r = copy_words-store_words r i (x ∷ y ∷ [])
write_registers-as_order order_be i x y r = copy_words-store_words r i (y ∷ x ∷ [])
write_registers-as_order order_swap i x y r =
    copy_words-store_words r i (swap_bytes x ∷ swap_bytes y ∷ [])

swap_word-as_order : (bo : ByteOrder) (v : ℕ) → swap_word (as_order bo) v ≡ swapped_if bo v
unfolding swap_word
swap_word-as_order order_le v = refl
swap_word-as_order order_be v = refl
swap_word-as_order order_swap v = refl

module _ (f : FloatUnit) (j : Cjson) where
  assign_word-as_order :
      (v : ℕ) (bo : ByteOrder) (i : ℕ) (r : List ℕ)
      → assign_word f j v (as_order bo) i r ≡ store_register i (swapped_if bo v) r
  unfolding assign_word store_register
  assign_word-as_order v bo i r = rw (swap_word-as_order bo v) refl

  assign_words-as_order :
      (u : ℕ) (bo : ByteOrder) (i : ℕ) (r : List ℕ)
      → assign_words f j u (as_order bo) i r ≡ Registers.write_registers i (words_of u) bo r
  unfolding assign_words
  assign_words-as_order u bo i r = write_registers-as_order bo i _ _ r

  assign_value-as_order :
      (t : String) (val : j.Item) (bo : ByteOrder) (i : ℕ) (r : List ℕ)
      → assign_value f j t val (as_order bo) i r ≡ write_value f j t val bo i r
  unfolding assign_value write_value
  assign_value-as_order t val bo i r =
      rw
        (
          assign_word-as_order (j.valueint val % 2 ^ 16) bo i r,
          assign_words-as_order (j.valueint val % 2 ^ 32) bo i r,
          assign_words-as_order (f.to_float (j.valuedouble val) % 2 ^ 32) bo i r,
        )
        refl

  order_text-eq : (item : Option j.Item) → order_text f j item ≡ byte_order_text f j item
  unfolding order_text byte_order_text
  order_text-eq none = refl
  order_text-eq (some item) = refl

  module _ (c : Settings) (m : Mapping) (zero_start : c.holding_regs.start ≡ 0)
      (count : m.nb_registers ≡ c.holding_regs.nb) (small : m.nb_registers < 2 ^ 31) where
    tests_eq :
        (a : ℕ)
        → (int_lt a c.holding_regs.start
            || not (int_lt a (add_int c.holding_regs.start c.holding_regs.nb)))
          ≡ (int_lt a 0 || not (int_lt a m.nb_registers))
    tests_eq a = ground arith

    acknowledged-eq :
        (s : State) (a : ℕ) (t : String) (r : Option (List ℕ))
        → JsonCommand.acknowledged s m a t r ≡ as_effect (confirmed s m a t r)
    acknowledged-eq s a t none = refl
    acknowledged-eq s a t (some r) = refl

    update_mapping-eq :
        (t : String) (order_it : Option j.Item) (val : j.Item) (a : ℕ) (s : State)
        → a < 2 ^ 32
        → s.mb_mapping ≡ some m
        → update_mapping f j (some t) order_it val a s s.mb_mapping
          ≡ as_effect (update_address f j c t order_it val a s)
    unfolding update_mapping update_address write_mapping
    update_mapping-eq t order_it val a s word e =
        elim (Bool-cases (int_lt a 0 || not (int_lt a m.nb_registers))) [
          | inl out ↦ rw (e, tests_eq a, out) refl
          | inr inside ↦
              let idx : sub_int a c.holding_regs.start ≡ a = omega (arith, zero_start) in
              let order =
                ap parse_byte_order (order_text-eq order_it)
                ∙ parse_byte_order-as_order (byte_order_text f j order_it) in
              rw (e, tests_eq a, idx, inside, order)
                (rw
                  (assign_value-as_order t val
                    (Registers.parse_byte_order (byte_order_text f j order_it)) a m.tab_registers)
                  (acknowledged-eq s a t _))
        ]

    update_fields-eq :
        ((item : j.Item) → j.valueint item < 2 ^ 32)
        → (type addr datatype order_it val : Option j.Item) (s : State) → s.mb_mapping ≡ some m
        → update_fields f j type addr datatype order_it val s
          ≡ as_effect (update_members f j c type addr datatype order_it val s)
    unfolding update_fields update_members
    update_fields-eq ints type none datatype order_it val s e = refl
    update_fields-eq ints type (some addr) none order_it val s e = refl
    update_fields-eq ints type (some addr) (some datatype) order_it none s e = refl
    update_fields-eq ints type (some addr) (some datatype) order_it (some val) s e =
        elim (Bool-cases (holds j.string type && j.number addr && j.string datatype)) [
          | inr bad ↦ rw bad refl
          | inl good ↦ elim (Option-cases (j.valuestring datatype)) [
            | inl n ↦ rw (good, n) refl
            | inr (t, g) ↦
                rw (good, g) (update_mapping-eq t order_it val (j.valueint addr) s (ints addr) e)
          ]
        ]

    start-eq :
        (s : State)
        → some (JsonCommand.start f j s s.server_state) ≡ as_effect (start_command f j s)
    unfolding JsonCommand.start start_command
    start-eq s = go s.server_state
      where
        go :
            (v : ServerState)
            → some (JsonCommand.start f j s v)
              ≡ as_effect (elim v [
                | state_running ↦ some (s, Command.already_running ∷ [])
                | state_stopped ↦
                    some (record s { server_state = state_running }, Command.starting ∷ [])
              ])
        go state_running = refl
        go state_stopped = refl

    process_command-eq :
        ((item : j.Item) → j.valueint item < 2 ^ 32)
        → (root : j.Item) (cmd : Option String) (json_str : String) (s : State)
        → j.parse json_str ≡ some root
        → s.mb_mapping ≡ some m
        → process_command f j cmd json_str s ≡ as_effect (process_root f j c root cmd s)
    unfolding process_command process_root json_command_update_data data_update
    process_command-eq ints root cmd json_str s p e = elim (Bool-cases (is_text cmd "stop")) [
      | inl a ↦ rw a refl
      | inr a ↦ elim (Bool-cases (is_text cmd "start")) [
        | inl b ↦ rw (a, b) (start-eq s)
        | inr b ↦ elim (Bool-cases (is_text cmd "status")) [
          | inl d ↦ rw (a, b, d) refl
          | inr d ↦
              rw (a, b, d, p, json_command_update_data)
                (update_fields-eq ints (j.get_object_item_case_sensitive root "type")
                  (j.get_object_item_case_sensitive root "address")
                  (j.get_object_item_case_sensitive root "datatype")
                  (j.get_object_item_case_sensitive root "byte_order")
                  (j.get_object_item_case_sensitive root "value") s e)
        ]
      ]
    ]

    command_of-eq : (item : Option j.Item) → command_of f j item ≡ command_text f j item
    unfolding command_of command_text
    command_of-eq none = refl
    command_of-eq (some item) = refl

    -- The two servers do the same on every line, whatever it is, if the holding registers of the
    -- settings start at 0 and a mapping for them is there, with fewer than 2 ^ 31 registers: the same
    -- state, the same lines printed up to the words for a refused address, and the same faults.
    pub json_command_process-eq :
        ((item : j.Item) → j.valueint item < 2 ^ 32)
        → (json_str : String) (s : State) → s.mb_mapping ≡ some m
        → json_command_process f j json_str s ≡ as_effect (process_json f j c json_str s)
    unfolding json_command_process process_json
    json_command_process-eq ints json_str s e = elim (Option-cases (j.parse json_str)) [
      | inl p ↦ rw (p, json_command_process, process_json) refl
      | inr (root, p) ↦
          let cmd = j.get_object_item_case_sensitive root "cmd" in
          rw (p, json_command_process, process_json, command_of-eq cmd)
            (process_command-eq ints root (command_text f j cmd) json_str s p e)
    ]
