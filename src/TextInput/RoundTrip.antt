-- ===== src/TextInput/RoundTrip.antt =====
-- ExtractJsonString ends, and reads what JsonEscape wrote.
use flutter_libnx.Prelude.{
  ℕ, zero, suc, ◌≤◌, ◌<◌, ◌≡◌, refl, Bool, true, false, Option, none, some, List, [], ◌∷◌, ◌++◌,
  arith, ltb, leb, length, take, drop, append_assoc, find, append-nil, Bool-cases, inl, inr,
  length-append, length-drop, Option-cases, ◌⊎◌,
}
use flutter_libnx.TextInput.Utf8.{utf8_of}
use flutter_libnx.TextInput.Json.{
  Strings, IsLawful, quote, escape_char, escape_loop, json_escape, Round, returns, goes_on,
  low_surrogate, append_pair, unicode_escape, unescape_char, escaped, extract_round, extract_loop,
  extract_json_string, key_needle,
}

take-length : (xs ys : List ℕ) (n : ℕ) → length xs ≡ n → take n (xs ++ ys) ≡ xs
take-length [] ys zero h = refl
take-length [] ys (suc n) h = absurd (omega arith)
take-length (x ∷ xs) ys zero h = absurd (omega arith)
take-length (x ∷ xs) ys (suc n) h = rw (take-length xs ys n (omega arith))

drop-length : (xs ys : List ℕ) (n : ℕ) → length xs ≡ n → drop n (xs ++ ys) ≡ ys
drop-length [] ys zero h = refl
drop-length [] ys (suc n) h = absurd (omega arith)
drop-length (x ∷ xs) ys zero h = absurd (omega arith)
drop-length (x ∷ xs) ys (suc n) h = drop-length xs ys n (omega arith)

module _ (L : Strings) where
  -- A round that goes on has used up some of the text.
  abbrev Shrinks : ℕ → Round L → Type 0
  Shrinks n (returns found out) = Unit
  Shrinks n (goes_on rest out) = length rest < n

  append_pair-Shrinks :
      (cp : ℕ) (o : Option ℕ) (rest out : List ℕ) (n : ℕ)
      → length rest < n
      → Shrinks n (append_pair L cp o rest out)
  unfolding append_pair
  append_pair-Shrinks cp none rest out n h = h
  append_pair-Shrinks cp (some low) rest out n h = omega (arith, length-drop 6 rest)

  unicode_escape-Shrinks :
      (rest out : List ℕ) (n : ℕ) → length rest < n → Shrinks n (unicode_escape L rest out)
  unfolding unicode_escape
  unicode_escape-Shrinks rest out n h = elim (Bool-cases (ltb (length rest) 4)) [
    | inl short ↦ rw short tt
    | inr long ↦
        rw long (append_pair-Shrinks _ _ (drop 4 rest) out n (omega (arith, length-drop 4 rest)))
  ]

  unescape_char-Shrinks :
      (esc : ℕ) (rest out : List ℕ) (n : ℕ)
      → length rest < n
      → Shrinks n (unescape_char L esc rest out)
  unfolding unescape_char
  unescape_char-Shrinks esc rest out n h = ground (arith, unicode_escape-Shrinks rest out n h)

  extract_round-Shrinks : (json out : List ℕ) → Shrinks (length json) (extract_round L json out)
  unfolding extract_round escaped
  extract_round-Shrinks [] out = tt
  extract_round-Shrinks (c ∷ []) out = ground arith
  extract_round-Shrinks (c ∷ esc ∷ rest) out =
      ground (arith, unescape_char-Shrinks esc rest out (suc (suc (length rest))))

  Round-cases :
      (r : Round L)
      → ((x : Bool × List ℕ) × (r ≡ returns x.0 x.1))
        ⊎ ((x : List ℕ × List ℕ) × (r ≡ goes_on x.0 x.1))
  Round-cases (returns found out) = inl ((found, out), refl)
  Round-cases (goes_on rest out) = inr ((rest, out), refl)

  extract_loop_returns :
      (fuel : ℕ) (json out : List ℕ)
      → length json < fuel
      → (r : Bool × List ℕ) × (extract_loop L fuel json out ≡ some r)
  unfolding extract_loop
  extract_loop_returns zero json out h = absurd (omega arith)
  extract_loop_returns (suc fuel) json out h = elim (Round-cases (extract_round L json out)) [
    | inl (x, e) ↦ (x, rw (e, extract_loop))
    | inr ((rest, out'), e) ↦
        let shorter : length rest < length json = rw e at (extract_round-Shrinks json out) in
        let (r, e_r) = extract_loop_returns fuel rest out' (omega arith) in
        (r, rw (e, extract_loop) e_r)
  ]

  -- ExtractJsonString ends, on every text.
  pub extract_json_string_returns :
      (json key out : List ℕ) → (r : Bool × List ℕ) × (extract_json_string L json key out ≡ some r)
  unfolding extract_json_string
  extract_json_string_returns json key out = elim (Option-cases (find (key_needle key) json)) [
    | inl e ↦ ((false, out), rw e)
    | inr (rest, e) ↦
        let (r, e_r) = extract_loop_returns (suc (length rest)) rest [] (omega arith) in
        (r, rw e e_r)
  ]

  -- The escaped text, character by character.
  escaped_text : List ℕ → List ℕ
  escaped_text [] = []
  escaped_text (c ∷ s) = escape_char L c ++ escaped_text s

  escape_loop_lem : (s out : List ℕ) → escape_loop L s out ≡ out ++ escaped_text s
  unfolding escape_loop escaped_text
  escape_loop_lem [] out = rw (append-nil out)
  escape_loop_lem (c ∷ s) out = rw (
    escape_loop_lem s (out ++ escape_char L c),
    append_assoc out (escape_char L c) (escaped_text s),
  )

  module _ (law : IsLawful L) where
    control_char :
        (c : ℕ) (rest out : List ℕ)
        → c < 0x20
        → unicode_escape L (L.hex4 c ++ rest) out ≡ goes_on rest (out ++ (c ∷ []))
    unfolding unicode_escape low_surrogate append_pair utf8_of
    control_char c rest out h =
        let four = law.four_digits c (omega arith) in
        let long : ltb (length (L.hex4 c ++ rest)) 4 ≡ false =
          let total = length-append (L.hex4 c) rest in ground arith in
        let no_pair : leb 0xD800 c ≡ false = ground arith in
        let ascii : ltb c 0x80 ≡ true = ground arith in
        rw (
          long,
          take-length (L.hex4 c) rest 4 four,
          drop-length (L.hex4 c) rest 4 four,
          law.reads_back c (omega arith),
          no_pair,
          ascii,
        )

    extract_round-escape_char :
        (c : ℕ) (rest out : List ℕ)
        → extract_round L (escape_char L c ++ rest) out ≡ goes_on rest (out ++ (c ∷ []))
    unfolding extract_round escape_char escaped unescape_char
    extract_round-escape_char c rest out = ground (arith, control_char c rest out)

    escape_char_nonempty : (c : ℕ) → 0 < length (escape_char L c)
    unfolding escape_char
    escape_char_nonempty c = ground arith

    extract_loop-escaped_text :
        (s rest out : List ℕ) (fuel : ℕ)
        → length s < fuel
        → extract_loop L fuel (escaped_text s ++ (quote ∷ rest)) out ≡ some (true, out ++ s)
    unfolding extract_loop escaped_text
    extract_loop-escaped_text s rest out zero h = absurd (omega arith)
    extract_loop-escaped_text [] rest out (suc fuel) h = unfold extract_round in rw (append-nil out)
    extract_loop-escaped_text (c ∷ s) rest out (suc fuel) h =
        rw (append_assoc (escape_char L c) (escaped_text s) (quote ∷ rest)) (
          rw (extract_round-escape_char c (escaped_text s ++ (quote ∷ rest)) out, extract_loop)
            (rw (
              extract_loop-escaped_text s rest (out ++ (c ∷ [])) fuel (omega arith),
              append_assoc out (c ∷ []) s,
            )))

    length-escaped_text : (s : List ℕ) → length s ≤ length (escaped_text s)
    unfolding escaped_text
    length-escaped_text [] = omega arith
    length-escaped_text (c ∷ s) = omega (
      arith,
      length-append (escape_char L c) (escaped_text s),
      escape_char_nonempty c,
      length-escaped_text s,
    )

    -- Where the first occurrence of the key is followed by what JsonEscape made of a string, and a
    -- quotation mark, ExtractJsonString finds that string, whatever characters it has, if snprintf and
    -- strtoul are lawful.
    pub extract_json_string-json_escape :
        (json key s rest out : List ℕ)
        → find (key_needle key) json ≡ some (json_escape L s ++ (quote ∷ rest))
        → extract_json_string L json key out ≡ some (true, s)
    unfolding extract_json_string json_escape
    extract_json_string-json_escape json key s rest out h =
        let text : json_escape L s ≡ escaped_text s = escape_loop_lem s [] in
        rw (h, text)
          (extract_loop-escaped_text s rest [] (suc (length (escaped_text s ++ (quote ∷ rest))))
            (omega (arith, length-append (escaped_text s) (quote ∷ rest), length-escaped_text s)))
