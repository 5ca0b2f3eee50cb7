-- ===== src/Modbus/Session.antt =====
-- What a line of input leaves as it is.
use iec104_server_and_modbus.Base.{
  ℕ, suc, ◌%◌, ◌^◌, ◌≡◌, refl, sym, ap, ◌∙◌, String, Bool, true, not, ◌&&◌, ◌||◌, Option, none,
  some, List, [], ◌∷◌, length, set, length-set, ltb, if_intro, Bool-cases, Option-cases, inl, inr,
  str_eq, int_lt, add_int, sub_int,
}
use iec104_server_and_modbus.Cfloat.{FloatUnit}
use iec104_server_and_modbus.Cjson.{Cjson, holds}
use iec104_server_and_modbus.Modbus.Text.{is_text}
use iec104_server_and_modbus.Modbus.Registers.{
  ByteOrder, Mapping, parse_byte_order, store_words, ordered, write_registers,
}
use iec104_server_and_modbus.Modbus.Settings.{Settings}
use iec104_server_and_modbus.Modbus.Command.{
  ServerState, state_running, state_stopped, State, Effect, store_register, swapped_if, words_of,
  confirmed, write_value, byte_order_text, write_mapping, update_address, update_members,
  data_update, start_command, process_root, process_json, command_text, already_running, starting,
  address_out_of_range,
}
use iec104_server_and_modbus.Modbus.Server.{is_running, is_mapped}
use iec104_server_and_modbus.Modbus.Update.{Serves, ServesAny}

-- The registers written are as many as before.
abbrev Sized : List ℕ → Option (List ℕ) → Type 0
Sized r none = Unit {0}
Sized r (some r') = length r' ≡ length r

store_words-Sized :
    (r : List ℕ) (words : List ℕ) (q : List ℕ) (i : ℕ)
    → length q ≡ length r
    → Sized r (store_words q i words)
unfolding store_words
store_words-Sized r [] q i e = e
store_words-Sized r (w ∷ words) q i e =
    if_intro (Sized r) (ltb i (length q)) (store_words (set q i w) (suc i) words) none
      (store_words-Sized r words (set q i w) (suc i) (length-set q i w ∙ e)) tt

store_register-Sized : (r : List ℕ) (i v : ℕ) → Sized r (store_register i v r)
unfolding store_register
store_register-Sized r i v =
    if_intro (Sized r) (ltb i (length r)) (some (set r i v)) none (length-set r i v) tt

-- The server runs or has stopped as its flag says, the mapping serves the settings, and it is there
-- if it was there.
pub record Keeps (c : Settings) (m : Bool) (s : State) : Type 0 where
  pub state : s.running ≡ is_running s
  pub serves : ServesAny c s.mb_mapping
  pub mapped : is_mapped s.mb_mapping ≡ m

abbrev pub KeepsEffect : Settings → Bool → Effect → Type 0
KeepsEffect c m none = Unit {0}
KeepsEffect c m (some (s, out)) = Keeps c m s

module _ (f : FloatUnit) (j : Cjson) where
  write_value-Sized :
      (t : String) (val : j.Item) (bo : ByteOrder) (i : ℕ) (r : List ℕ)
      → Sized r (write_value f j t val bo i r)
  unfolding write_value write_registers
  write_value-Sized t val bo i r =
      let word = store_register-Sized r i (swapped_if bo (j.valueint val % 2 ^ 16)) in
      let words = λ (u : ℕ). store_words-Sized r (ordered bo (words_of u)) r i refl in
      elim (Bool-cases (str_eq t "uint16" && j.number val)) [
        | inl a ↦ rw a word
        | inr a ↦ elim (Bool-cases (str_eq t "int16" && j.number val)) [
          | inl b ↦ rw (a, b) word
          | inr b ↦ elim (Bool-cases ((str_eq t "uint32" || str_eq t "int32") && j.number val)) [
            | inl d ↦ rw (a, b, d) (words (j.valueint val % 2 ^ 32))
            | inr d ↦ elim (Bool-cases (str_eq t "float" && j.number val)) [
              | inl g ↦ rw (a, b, d, g) (words (f.to_float (j.valuedouble val) % 2 ^ 32))
              | inr g ↦ rw (a, b, d, g) refl
            ]
          ]
        ]
      ]

  module _ (c : Settings) (m : Bool) where
    confirmed-Keeps :
        (s : State) (g : Mapping) (a : ℕ) (t : String) (o : Option (List ℕ))
        → Keeps c m s
        → s.mb_mapping ≡ some g
        → Serves c g
        → Sized g.tab_registers o
        → KeepsEffect c m (confirmed s g a t o)
    confirmed-Keeps s g a t none k h v e = tt
    confirmed-Keeps s g a t (some r) k h v e = record {
      state = k.state;
      serves = record { range = v.range; count = v.count; size = e ∙ v.size };
      mapped = ap is_mapped (sym h) ∙ k.mapped;
    }

    write_mapping-Keeps :
        (t : String) (order_it : Option j.Item) (val : j.Item) (a i : ℕ) (s : State)
        → Keeps c m s
        → KeepsEffect c m (write_mapping f j t order_it val a i s s.mb_mapping)
    unfolding write_mapping
    write_mapping-Keeps t order_it val a i s k = elim (Option-cases s.mb_mapping) [
      | inl e ↦ rw (e, write_mapping) tt
      | inr (g, e) ↦ elim (Bool-cases (int_lt i 0 || not (int_lt i g.nb_registers))) [
        | inl out ↦ rw (e, write_mapping, out) k
        | inr inside ↦
            rw (e, write_mapping, inside)
              (confirmed-Keeps s g a t
                (write_value f j t val (parse_byte_order (byte_order_text f j order_it)) i
                  g.tab_registers)
                k e (rw e at k.serves)
                (write_value-Sized t val (parse_byte_order (byte_order_text f j order_it)) i
                  g.tab_registers))
      ]
    ]

    update_address-Keeps :
        (t : String) (order_it : Option j.Item) (val : j.Item) (a : ℕ) (s : State)
        → Keeps c m s
        → KeepsEffect c m (update_address f j c t order_it val a s)
    unfolding update_address
    update_address-Keeps t order_it val a s k =
        if_intro (KeepsEffect c m)
          (int_lt a c.holding_regs.start
            || not (int_lt a (add_int c.holding_regs.start c.holding_regs.nb)))
          (some (s, address_out_of_range a ∷ []))
          (write_mapping f j t order_it val a (sub_int a c.holding_regs.start) s s.mb_mapping) k
          (write_mapping-Keeps t order_it val a (sub_int a c.holding_regs.start) s k)

    update_members-Keeps :
        (type addr datatype order_it val : Option j.Item) (s : State)
        → Keeps c m s
        → KeepsEffect c m (update_members f j c type addr datatype order_it val s)
    unfolding update_members
    update_members-Keeps type none datatype order_it val s k = k
    update_members-Keeps type (some addr) none order_it val s k = k
    update_members-Keeps type (some addr) (some datatype) order_it none s k = k
    update_members-Keeps type (some addr) (some datatype) order_it (some val) s k =
        elim (Bool-cases (holds j.string type && j.number addr && j.string datatype)) [
          | inr bad ↦ rw bad k
          | inl good ↦ elim (Option-cases (j.valuestring datatype)) [
            | inl n ↦ rw (good, n) tt
            | inr (t, g) ↦ rw (good, g) (update_address-Keeps t order_it val (j.valueint addr) s k)
          ]
        ]

    start_command-Keeps :
        (s : State) → s.running ≡ true → Keeps c m s → KeepsEffect c m (start_command f j s)
    unfolding start_command
    start_command-Keeps s on k = go s.server_state refl
      where
        go :
            (v : ServerState)
            → s.server_state ≡ v
            → KeepsEffect c m (elim v [
              | state_running ↦ some (s, already_running ∷ [])
              | state_stopped ↦ some (record s { server_state = state_running }, starting ∷ [])
            ])
        go state_running e = k
        go state_stopped e = record { state = on; serves = k.serves; mapped = k.mapped }

    -- A line of input to a server that runs.
    pub process_json-Keeps :
        (json_str : String) (s : State)
        → s.running ≡ true
        → Keeps c m s
        → KeepsEffect c m (process_json f j c json_str s)
    unfolding process_json process_root data_update
    process_json-Keeps json_str s on k = elim (Option-cases (j.parse json_str)) [
      | inl p ↦ rw (p, process_json) k
      | inr (root, p) ↦
          let cmd = command_text f j (j.get_object_item_case_sensitive root "cmd") in
          rw (p, process_json)
            (elim (Bool-cases (is_text cmd "stop")) [
              | inl a ↦ rw a (record { state = refl; serves = k.serves; mapped = k.mapped })
              | inr a ↦ elim (Bool-cases (is_text cmd "start")) [
                | inl b ↦ rw (a, b) (start_command-Keeps s on k)
                | inr b ↦ elim (Bool-cases (is_text cmd "status")) [
                  | inl d ↦ rw (a, b, d) k
                  | inr d ↦
                      rw (a, b, d)
                        (update_members-Keeps (j.get_object_item_case_sensitive root "type")
                          (j.get_object_item_case_sensitive root "address")
                          (j.get_object_item_case_sensitive root "datatype")
                          (j.get_object_item_case_sensitive root "byte_order")
                          (j.get_object_item_case_sensitive root "value") s k)
                ]
              ]
            ])
    ]
