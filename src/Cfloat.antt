-- ===== src/Cfloat.antt =====
-- The floating-point arithmetic of the C implementation. A `float` is its 32-bit pattern and a
-- `double` its 64-bit pattern; the operations on them are a parameter of the model.
use iec104_server_and_modbus.Base.{ℕ, Bool}

pub record FloatUnit : Type 0 where
  pub fabsf : ℕ → ℕ
  pub sub : ℕ → ℕ → ℕ
  pub mul : ℕ → ℕ → ℕ
  pub div : ℕ → ℕ → ℕ
  pub lt : ℕ → ℕ → Bool
  pub le : ℕ → ℕ → Bool
  -- The conversions of a `double` to `bool`, to an enumeration, to `int16_t`, to `uint32_t` and to
  -- `float`, each as the bytes of its result.
  pub to_bool : ℕ → Bool
  pub to_enum : ℕ → ℕ
  pub to_int16 : ℕ → ℕ
  pub to_uint32 : ℕ → ℕ
  pub to_float : ℕ → ℕ

-- 0.0f, 0.0001f and 100.0f
abbrev pub float_zero : ℕ
float_zero = 0

abbrev pub float_epsilon : ℕ
float_epsilon = 0x38d1_b717

abbrev pub float_hundred : ℕ
float_hundred = 0x42c8_0000
