-- ===== src/Server/Invariant.antt =====
-- What holds of the running server after every sequence of steps, and what it therefore answers to
-- an interrogation.
use iec104_server_and_modbus.Base.{
  ◌≡◌, refl, ◌∙◌, subst, String, Bool, true, Option, none, some, List, map, All, All-set,
  All-get_elem?, len, ◌==◌, arith, inl, inr, Bool-cases,
}
use iec104_server_and_modbus.Cfloat.{FloatUnit}
use iec104_server_and_modbus.Cjson.{Cjson}
use iec104_server_and_modbus.Data.Types.{DataTypeInfo}
use iec104_server_and_modbus.Data.Manager.{DynamicIoaConfig}
use iec104_server_and_modbus.Data.Manager.Configured.{
  IsConfigured, init_data_contexts-IsConfigured, update_data-IsConfigured,
  reset_all_data-IsConfigured,
}
use iec104_server_and_modbus.Client.{start}
use iec104_server_and_modbus.Client.Registry
use iec104_server_and_modbus.Client.Registry.{
  client_manager_init-IsValid, client_connection_event_handler-IsValid,
}
use iec104_server_and_modbus.Interrogation.Encoder.{Encoder}
use iec104_server_and_modbus.Config.Parser.{init_config_from_file}
use iec104_server_and_modbus.Config.Start.{parse_config_from_json-IsConfigured}
use iec104_server_and_modbus.Input.Line.{Surroundings, update_context}
use iec104_server_and_modbus.Input.Cases.{process_line_cases}
use iec104_server_and_modbus.Server.{
  Server, unconfigured, running, start_server, config_file, after_line, after_command,
  after_connection, Step, line, command, connection, round, Reachable, here, next,
}
use iec104_server_and_modbus.Server.Layout.{
  layout, process_line-layout, asdu_handler-contexts, asdu_handler-layout,
}

-- All contexts are configured, with this layout, and the registry of clients is valid.
pub record IsSound (l : List (DataTypeInfo × DynamicIoaConfig)) (s : Server) : Type 0 where
  pub configured : All IsConfigured s.input.contexts
  pub registry : Registry.IsValid s.manager
  pub layouts : map layout s.input.contexts ≡ l

module _ (f : FloatUnit) (j : Cjson) (enc : Encoder) where
  after_line-IsConfigured :
      (env : Surroundings) (l : String) (s : Server)
      → All IsConfigured s.input.contexts
      → All IsConfigured (after_line f j enc env l s).input.contexts
  unfolding after_line update_context
  after_line-IsConfigured env l s h =
      process_line_cases f s.globals enc (record env { manager = s.manager }) j
        (λ r. All IsConfigured r.0.contexts) s.input h (λ _. h) (λ _. h)
        (λ i ctx type_id ioa v at same. All-set IsConfigured s.input.contexts i _ h (
          update_data-IsConfigured f s.globals ctx (some env.open_connections) env.now ioa v
            (All-get_elem? IsConfigured s.input.contexts i ctx h at)))
        l

  Step-IsSound :
      (l : List (DataTypeInfo × DynamicIoaConfig)) (s t : Server)
      → Step f j enc s t
      → IsSound l s
      → IsSound l t
  unfolding after_line after_command after_connection
  Step-IsSound l s t (line env text) h = record {
    configured = after_line-IsConfigured env text s h.configured;
    registry = h.registry;
    layouts =
        process_line-layout f s.globals enc (record env { manager = s.manager }) j s.input text
        ∙ h.layouts;
  }
  Step-IsSound l s t (command r k now) h = record {
    configured =
        asdu_handler-contexts (All IsConfigured) s.globals.command_mode r k now _ h.configured
          (reset_all_data-IsConfigured s.input.contexts h.configured);
    registry = h.registry;
    layouts = asdu_handler-layout s.globals.command_mode r k now _ ∙ h.layouts;
  }
  Step-IsSound l s t (connection k event ip now) h = record {
    configured = h.configured;
    registry = client_connection_event_handler-IsValid k event ip now s.manager h.registry;
    layouts = h.layouts;
  }
  Step-IsSound l s t (round n now_me now_sp sent p e) h = record {
    configured = h.configured;
    registry = h.registry;
    layouts = h.layouts;
  }

  -- Every sequence of lines, commands, connection events and periodic rounds keeps the server sound:
  -- all contexts configured, with the same points and type information, and the registry of clients
  -- valid.
  pub Reachable-IsSound :
      (l : List (DataTypeInfo × DynamicIoaConfig)) (s t : Server)
      → Reachable f j enc s t
      → IsSound l s
      → IsSound l t
  Reachable-IsSound l s t here h = h
  Reachable-IsSound l s t (next {t = u} r step) h =
      Step-IsSound l u t step (Reachable-IsSound l s u r h)

init_config_from_file-IsConfigured :
    (f : FloatUnit) (j : Cjson) (name : String) (file : Option String)
    → (init_config_from_file f j (some name) file unconfigured).0 ≡ true
    → All IsConfigured (init_config_from_file f j (some name) file unconfigured).1.contexts
unfolding init_config_from_file
init_config_from_file-IsConfigured f j name none ok = init_data_contexts-IsConfigured
init_config_from_file-IsConfigured f j name (some content) ok =
    elim (Bool-cases (len content == 0)) [
      | inl empty ↦ rw empty init_data_contexts-IsConfigured
      | inr text ↦ rw text (
          parse_config_from_json-IsConfigured f j (some content) unconfigured
            init_data_contexts-IsConfigured (rw text at ok))
    ]

-- A server that has started is sound.
pub start_server-IsSound :
    (f : FloatUnit) (j : Cjson) (created : Bool) (argument file : Option String) (s : Server)
    → start_server f j created argument file ≡ some s
    → IsSound (map layout s.input.contexts) s
unfolding start_server running
start_server-IsSound f j created argument file s e =
    elim (Bool-cases
      (init_config_from_file f j (some (config_file argument)) file unconfigured).0) [
        | inl ok ↦
            let p = (init_config_from_file f j (some (config_file argument)) file unconfigured).1 in
            let same : some (running created p) ≡ some s = rw ok at e in
            let is : running created p ≡ s = cc in
            subst (λ t. IsSound (map layout t.input.contexts) t) is
              record {
                configured = init_config_from_file-IsConfigured f j (config_file argument) file ok;
                registry = client_manager_init-IsValid start refl refl;
                layouts = refl;
              }
        | inr bad ↦
            let never : ◌≡◌ {A = Option Server} none (some s) = rw bad at e in absurd (ground arith)
      ]
