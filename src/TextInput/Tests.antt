-- ===== src/TextInput/Tests.antt =====
-- Sample string functions and keyboards, and the theorems about text input at concrete inputs.
use flutter_libnx.Prelude.{
  ℕ, ◌+◌, ◌*◌, ◌/◌, ◌%◌, ◌-◌, ◌≡◌, refl, Bool, true, some, List, [], ◌∷◌, ◌++◌, arith, ◌<◌, ltb,
  if◌then◌else◌, codes, find-append, pos,
}
use flutter_libnx.TextInput.Utf8.{append_all, utf16_length, utf16_length-append_all}
use flutter_libnx.TextInput.Json.{
  Strings, IsLawful, json_escape, extract_json_string, key_needle, quote,
}
use flutter_libnx.TextInput.RoundTrip.{extract_json_string_returns, extract_json_string-json_escape}
use flutter_libnx.TextInput.Handler.{TextInput, Keyboard}

abbrev digit : ℕ → ℕ
digit n = if ltb n 10 then 48 + n else 87 + n

abbrev digit_value : ℕ → ℕ
digit_value c = if ltb c 58 then c - 48 else c - 87

-- Four digits, for a number below 2^16.
abbrev hex_of : ℕ → List ℕ
hex_of n = digit (n / 4096 % 16) ∷ digit (n / 256 % 16) ∷ digit (n / 16 % 16) ∷ digit (n % 16) ∷ []

abbrev read_hex : ℕ → List ℕ → ℕ
read_hex acc [] = acc
read_hex acc (c ∷ cs) = read_hex (16 * acc + digit_value c) cs

abbrev hexadecimal : Strings
hexadecimal = record {
  hex4 = hex_of;
  strtoul = read_hex 0;
  atoi = λ s. pos 5;
  to_string = λ n. b'5' ∷ [];
}

digit_value-digit : (n : ℕ) → n < 16 → digit_value (digit n) ≡ n
digit_value-digit n h = ground arith

hexadecimal-IsLawful : IsLawful hexadecimal
hexadecimal-IsLawful = record {
  four_digits = λ n h. refl;
  reads_back = λ n h. omega (
    arith,
    digit_value-digit (n / 4096 % 16),
    digit_value-digit (n / 256 % 16),
    digit_value-digit (n / 16 % 16),
    digit_value-digit (n % 16),
  );
}

-- ä and a code point above 0x10000
abbrev sample : List ℕ
sample = 0xE4 ∷ 0x1F600 ∷ []

utf16_length-append_all_example : utf16_length (append_all [] sample) ≡ 3
utf16_length-append_all_example = utf16_length-append_all sample (omega arith)

extract_json_string_returns_example :
    (r : Bool × List ℕ) × (extract_json_string hexadecimal
        (codes "{\"text\":\"a\\")
        (codes "text")
        []
      ≡ some r)
extract_json_string_returns_example =
    extract_json_string_returns hexadecimal (codes "{\"text\":\"a\\") (codes "text") []

-- A quotation mark, a line feed and a control character.
abbrev hard : List ℕ
hard = 34 ∷ 10 ∷ 1 ∷ 65 ∷ []

extract_json_string-json_escape_example :
    extract_json_string hexadecimal
      (key_needle (codes "text") ++ (json_escape hexadecimal hard ++ (quote ∷ codes "}")))
      (codes "text")
      []
    ≡ some (true, hard)
extract_json_string-json_escape_example =
    extract_json_string-json_escape hexadecimal hexadecimal-IsLawful
      (key_needle (codes "text") ++ (json_escape hexadecimal hard ++ (quote ∷ codes "}")))
      (codes "text") hard (codes "}") []
      (find-append (key_needle (codes "text"))
        (json_escape hexadecimal hard ++ (quote ∷ codes "}")))

abbrev typing : Keyboard
typing = record { create = true; show = λ initial. (true, codes "hi") }

abbrev focused : TextInput
focused = record {
  client_id = pos 5;
  text = codes "h";
  input_action = codes "TextInputAction.done";
  has_handle = true;
  responses = [];
  messages = [];
}
