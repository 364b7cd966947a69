-- ===== src/TextInput/Json.antt =====
-- JsonEscape, ExtractJsonString and ExtractClientId.
use flutter_libnx.Prelude.{
  ℕ, zero, suc, ◌+◌, ◌-◌, ◌*◌, ◌^◌, ◌<◌, ◌≡◌, Bool, true, false, Option, none, some, List, [], ◌∷◌,
  ◌++◌, ltb, leb, ◌==◌, ◌&&◌, if◌then◌else◌, codes, begins_with, find, length, take, drop, ℤ,
  negsuc,
}
use flutter_libnx.TextInput.Utf8.{append_utf8}

-- What the file calls of the C and C++ libraries.
pub record Strings : Type 0 where
  -- snprintf with "%04x"
  pub hex4 : ℕ → List ℕ
  -- strtoul(s, nullptr, 16)
  pub strtoul : List ℕ → ℕ
  pub atoi : List ℕ → ℤ
  pub to_string : ℤ → List ℕ

-- What ISO C says of the first two: "%04x" writes at least four digits, and no more for a value below
-- 2^16, and strtoul reads the value back.
pub record IsLawful (L : Strings) : Type 0 where
  pub four_digits : (n : ℕ) → n < 2 ^ 16 → length (L.hex4 n) ≡ 4
  pub reads_back : (n : ℕ) → n < 2 ^ 16 → L.strtoul (L.hex4 n) ≡ n

abbrev pub quote : ℕ
quote = b'"'

abbrev pub backslash : ℕ
backslash = b'\\'

-- "key":"
abbrev pub key_needle : List ℕ → List ℕ
key_needle key = (quote ∷ key) ++ codes "\":\""

module _ (L : Strings) where
  -- The `switch` on one character.
  unfoldable pub escape_char : ℕ → List ℕ
  escape_char c =
      if c == quote
      then backslash ∷ quote ∷ []
      else if c == backslash
      then backslash ∷ backslash ∷ []
      else if c == 10
      then backslash ∷ b'n' ∷ []
      else if c == 13
      then backslash ∷ b'r' ∷ []
      else if c == 9
      then backslash ∷ b't' ∷ []
      else if ltb c 0x20
      then backslash ∷ b'u' ∷ L.hex4 c
      else c ∷ []

  unfoldable pub escape_loop : List ℕ → List ℕ → List ℕ
  unfolding escape_char
  escape_loop [] out = out
  escape_loop (c ∷ s) out = escape_loop s (out ++ escape_char c)

  unfoldable pub json_escape : List ℕ → List ℕ
  unfolding escape_loop
  json_escape s = escape_loop s []

  -- A round of the loop of ExtractJsonString: it returns, or goes on with the rest of the text. The
  -- second component is `*out`.
  pub data Round : Type 0 where
    returns : Bool → List ℕ → Round
    goes_on : List ℕ → List ℕ → Round

  -- The second half of a surrogate pair, if it follows.
  unfoldable pub low_surrogate : ℕ → List ℕ → Option ℕ
  low_surrogate cp rest =
      let low = L.strtoul (take 4 (drop 2 rest)) in
      if leb 0xD800 cp
        && leb cp 0xDBFF
        && leb 6 (length rest)
        && begins_with (backslash ∷ b'u' ∷ []) rest
        && leb 0xDC00 low
        && leb low 0xDFFF
      then some low
      else none

  unfoldable pub append_pair : ℕ → Option ℕ → List ℕ → List ℕ → Round
  append_pair cp none rest out = goes_on rest (append_utf8 out cp)
  append_pair cp (some low) rest out =
      goes_on (drop 6 rest) (append_utf8 out (0x10000 + (cp - 0xD800) * 2 ^ 10 + (low - 0xDC00)))

  unfoldable pub unicode_escape : List ℕ → List ℕ → Round
  unfolding low_surrogate append_pair
  unicode_escape rest out =
      let cp = L.strtoul (take 4 rest) in
      if ltb (length rest) 4
      then returns false out
      else append_pair cp (low_surrogate cp (drop 4 rest)) (drop 4 rest) out

  unfoldable pub unescape_char : ℕ → List ℕ → List ℕ → Round
  unfolding unicode_escape
  unescape_char esc rest out =
      if esc == b'n'
      then goes_on rest (out ++ (10 ∷ []))
      else if esc == b'r'
      then goes_on rest (out ++ (13 ∷ []))
      else if esc == b't'
      then goes_on rest (out ++ (9 ∷ []))
      else if esc == b'b'
      then goes_on rest (out ++ (8 ∷ []))
      else if esc == b'f'
      then goes_on rest (out ++ (12 ∷ []))
      else if esc == b'u'
      then unicode_escape rest out
      else goes_on rest (out ++ (esc ∷ []))

  unfoldable pub escaped : List ℕ → List ℕ → Round
  unfolding unescape_char
  escaped [] out = returns false out
  escaped (esc ∷ rest) out = unescape_char esc rest out

  unfoldable pub extract_round : List ℕ → List ℕ → Round
  unfolding escaped
  extract_round [] out = returns false out
  extract_round (c ∷ rest) out =
      if c == quote
      then returns true out
      else if c == backslash
      then escaped rest out
      else goes_on rest (out ++ (c ∷ []))

  -- The loop; `none` if `fuel` rounds do not end it.
  unfoldable pub extract_loop : ℕ → List ℕ → List ℕ → Option (Bool × List ℕ)
  unfolding extract_round
  extract_loop zero json out = none
  extract_loop (suc fuel) json out = elim (extract_round json out) [
    | returns found out' ↦ some (found, out')
    | goes_on rest out' ↦ extract_loop fuel rest out'
  ]

  abbrev from_start : Option (List ℕ) → List ℕ → Option (Bool × List ℕ)
  from_start none out = some (false, out)
  from_start (some rest) out = extract_loop (suc (length rest)) rest []

  -- ExtractJsonString: its result, and `*out` afterwards.
  unfoldable pub extract_json_string : List ℕ → List ℕ → List ℕ → Option (Bool × List ℕ)
  unfolding extract_loop
  extract_json_string json key out = from_start (find (key_needle key) json) out

  abbrev number_behind : Option (List ℕ) → ℤ
  number_behind none = negsuc 0
  number_behind (some rest) = L.atoi rest

  unfoldable pub extract_client_id : List ℕ → ℤ
  extract_client_id json = number_behind (find (codes "\"args\":[") json)
