-- ===== src/Cjson.antt =====
-- cJSON, the JSON library under json-iec104-server/cJSON: its items, and what the server calls. A
-- function that takes NULL is given an `Option`.
use iec104_server_and_modbus.Base.{ℕ, String, Bool, false, Option, none, some, List}

pub record Cjson : Type 1 where
  pub Item : Type 0
  -- `cJSON_Parse`, NULL on an error.
  pub parse : String → Option Item
  -- `cJSON_GetObjectItem` and `cJSON_GetObjectItemCaseSensitive` of an item.
  pub get_object_item : Item → String → Option Item
  pub get_object_item_case_sensitive : Item → String → Option Item
  -- The kinds of an item.
  pub string : Item → Bool
  pub number : Item → Bool
  pub array : Item → Bool
  pub object : Item → Bool
  pub boolean : Item → Bool
  pub true_item : Item → Bool
  -- The members of `struct cJSON`: a text or NULL, an `int` and a `double` as their patterns, and
  -- the entries of an array.
  pub valuestring : Item → Option String
  pub valueint : Item → ℕ
  pub valuedouble : Item → ℕ
  pub children : Item → List Item

-- `cJSON_IsString(item)` and the like are false of NULL.
abbrev pub holds {ℓ} : {A : Type ℓ} → (A → Bool) → Option A → Bool
holds test none = false
holds test (some x) = test x
