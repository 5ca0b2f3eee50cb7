-- ===== src/Modbus/Text.antt =====
-- What the Modbus server uses of <string.h>, on texts of ASCII characters.
use Prim.Native.Char.{code}
use iec104_server_and_modbus.Base.{
  ℕ, ◌+◌, ◌≡◌, refl, String, Bool, true, false, ◌&&◌, ◌||◌, Option, none, some, List, [], ◌∷◌, leb,
  ◌==◌, if◌then◌else◌, str_eq,
}

abbrev pub codes : String → List ℕ
codes String.[] = []
codes (String.◌∷◌ c s) = code c ∷ codes s

to_lower : ℕ → ℕ
to_lower c = if leb b'A' c && leb c b'Z' then c + 32 else c

same_letters : List ℕ → List ℕ → Bool
unfolding to_lower
same_letters [] [] = true
same_letters [] (d ∷ ds) = false
same_letters (c ∷ cs) [] = false
same_letters (c ∷ cs) (d ∷ ds) = to_lower c == to_lower d && same_letters cs ds

-- strcasecmp(s, t) == 0
unfoldable pub case_eq : String → String → Bool
unfolding same_letters
case_eq s t = same_letters (codes s) (codes t)

starts_with : List ℕ → List ℕ → Bool
starts_with [] s = true
starts_with (c ∷ cs) [] = false
starts_with (c ∷ cs) (d ∷ ds) = c == d && starts_with cs ds

occurs : List ℕ → List ℕ → Bool
unfolding starts_with
occurs t [] = starts_with t []
occurs t (c ∷ cs) = starts_with t (c ∷ cs) || occurs t cs

-- strstr(s, t) != NULL
unfoldable pub strstr : String → String → Bool
unfolding occurs
strstr s t = occurs (codes t) (codes s)

-- s[0], and 0 at the end of an empty text.
unfoldable pub first_char : String → ℕ
first_char String.[] = 0
first_char (String.◌∷◌ c s) = code c

-- strcmp(s, t) == 0 for a text that is there.
abbrev pub is_text : Option String → String → Bool
is_text none t = false
is_text (some s) t = str_eq s t

case_test : case_eq "swap" "SWAP" ≡ true
unfolding case_eq
case_test = refl

strstr_test : strstr "tcp_rtu" "rtu" ≡ true
unfolding strstr
strstr_test = refl
