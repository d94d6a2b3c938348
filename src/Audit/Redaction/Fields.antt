-- ===== src/Audit/Redaction/Fields.antt =====
-- crates/sunbolt-audit/src/redaction.rs: the values of sensitive keys, and the three passes together.
use sunbolt.Base.{
  ℕ, zero, suc, ◌+◌, ◌-◌, min, ◌++◌, Bool, not, ◌&&◌, ◌||◌, Option, none, some, [], ◌∷◌, Text,
  text_eq, leb, nat_eq, if◌then◌else◌, map, any, length, drop,
}
use sunbolt.Auth.{lower}
use sunbolt.Audit.Redaction.{
  redaction, sensitive_keys, span_while, take, is_identifier_byte, is_ascii_whitespace,
  redact_sensitive_headers, redact_sensitive_tokens,
}

abbrev pub normalize_byte : ℕ → ℕ
normalize_byte b = if nat_eq b b'-' then b'_' else lower b

unfoldable pub normalize_key : Text → Text
normalize_key key = map normalize_byte key

-- `str::ends_with`
abbrev pub ends_with : Text → Text → Bool
ends_with key suffix =
    leb (length suffix) (length key) && text_eq (drop (length key - length suffix) key) suffix

unfoldable pub is_sensitive_key : Text → Bool
is_sensitive_key key =
    any (λ sensitive. text_eq key sensitive || ends_with key (b'_' ∷ sensitive)) sensitive_keys

-- The text before the next identifier, the identifier and the text after it.
unfoldable pub next_identifier : ℕ → Text → Option (Text × Text × Text)
next_identifier before [] = none
next_identifier before (b ∷ t) =
    let (key, rest) = span_while is_identifier_byte (b ∷ t) in
    let later = next_identifier b t in
    if is_identifier_byte b && not (is_identifier_byte before)
    then some ([], key, rest)
    else elim later [ none ↦ none | some (front, name, after) ↦ some (b ∷ front, name, after) ]

-- A `:` or `=` at the front: the bytes up to the end of it, and the text after it.
abbrev pub delimiter_at : Text → Text → Option (Text × Text)
delimiter_at skipped [] = none
delimiter_at skipped (b ∷ t) =
    if nat_eq b b':' || nat_eq b b'=' then some (skipped ++ b ∷ [], t) else none

-- The quote that may closing a key, with the white space after it.
abbrev pub after_quote : Text → Text × Text
after_quote [] = ([], [])
after_quote (b ∷ t) =
    let (spaces, rest) = span_while is_ascii_whitespace t in
    if nat_eq b b'"' then (b ∷ spaces, rest) else ([], b ∷ t)

unfoldable pub next_key_value_delimiter : Text → Option (Text × Text)
next_key_value_delimiter t =
    let (spaces, rest) = span_while is_ascii_whitespace t in
    let (quoted, rest') = after_quote rest in delimiter_at (spaces ++ quoted) rest'

-- How many bytes a quoted value has, after its opening quote.
unfoldable pub quoted_length : ℕ → Text → ℕ
quoted_length quote [] = 0
quoted_length quote (b ∷ []) = if nat_eq b b'\\' then 1 else if nat_eq b quote then 0 else 1
quoted_length quote (b ∷ c ∷ t) =
    let escaped = quoted_length quote t in
    let next = quoted_length quote (c ∷ t) in
    if nat_eq b b'\\' then escaped + 2 else if nat_eq b quote then 0 else next + 1

-- What a byte does in `balanced_value_end`: the depth after it, and the bytes that a quoted text
-- takes.
abbrev pub balanced_step : ℕ → ℕ → ℕ → ℕ → Text → ℕ × ℕ
balanced_step opening closing depth b t =
    if nat_eq b opening
    then (depth + 1, 0)
    else if nat_eq b closing
    then (depth - 1, 0)
    else if nat_eq b b'"' || nat_eq b b'\''
    then (depth, min (quoted_length b t + 1) (length t))
    else (depth, 0)

-- How many bytes there are up to the bracket that closes the first; every round takes one at least.
unfoldable pub balanced_length : ℕ → ℕ → ℕ → ℕ → Text → ℕ
balanced_length zero opening closing depth t = 0
balanced_length (suc fuel) opening closing depth [] = 0
balanced_length (suc fuel) opening closing depth (b ∷ t) =
    let (depth', quoted) = balanced_step opening closing depth b t in
    let rest = balanced_length fuel opening closing depth' (drop quoted t) in
    if nat_eq b closing && nat_eq depth' 0 then 1 else quoted + rest + 1

abbrev pub ends_unquoted : ℕ → Bool
ends_unquoted b =
    nat_eq b b',' || nat_eq b b';' || nat_eq b 10 || nat_eq b 13 || is_ascii_whitespace b

-- A value of so many bytes, between what stands before it and the text after it.
abbrev pub split_value : Text → ℕ → Text → Option (Text × Text × Text)
split_value lead n t = some (lead, take n t, drop n t)

-- How many bytes a value without quotes and brackets has.
abbrev pub unquoted_length : Text → ℕ
unquoted_length t = length (span_while (λ c. not (ends_unquoted c)) t).0

-- The bytes before a value, the value and the text after it.
abbrev pub value_at : Text → Text → Option (Text × Text × Text)
value_at spaces [] = none
value_at spaces (b ∷ t) =
    if nat_eq b b'"' || nat_eq b b'\''
    then split_value (spaces ++ b ∷ []) (quoted_length b t) t
    else if nat_eq b b'['
    then split_value spaces (balanced_length (length (b ∷ t)) b'[' b']' 0 (b ∷ t)) (b ∷ t)
    else if nat_eq b b'{'
    then split_value spaces (balanced_length (length (b ∷ t)) b'{' b'}' 0 (b ∷ t)) (b ∷ t)
    else split_value spaces (unquoted_length (b ∷ t)) (b ∷ t)

unfoldable pub value_bounds : Text → Option (Text × Text × Text)
value_bounds t = let (spaces, rest) = span_while is_ascii_whitespace t in value_at spaces rest

abbrev pub last_byte : ℕ → Text → ℕ
last_byte before [] = before
last_byte before (b ∷ t) = last_byte b t

-- What comes of the text after a sensitive key: what is shown of it, the byte before the position
-- where the search goes on, and the text from there.
unfoldable pub redact_value : ℕ → Text → Text × ℕ × Text
redact_value before rest = elim (next_key_value_delimiter rest) [
  | none ↦ ([], before, rest)
  | some (delimiter, after) ↦ elim (value_bounds after) [
    | none ↦ ([], before, rest)
    | some (lead, value, after') ↦
        (delimiter ++ lead ++ redaction, last_byte before (delimiter ++ lead ++ value), after')
  ]
]

-- The loop of `redact_sensitive_key_values`; each round takes the identifier that it finds.
unfoldable pub redact_fields : ℕ → ℕ → Text → Text
redact_fields zero before t = t
redact_fields (suc fuel) before t = elim (next_identifier before t) [
  | none ↦ t
  | some (front, key, rest) ↦
      let (written, before', rest') =
        if is_sensitive_key (normalize_key key)
        then redact_value (last_byte before key) rest
        else ([], last_byte before key, rest) in
      front ++ key ++ written ++ redact_fields fuel before' rest'
]

unfoldable pub redact_sensitive_key_values : Text → Text
redact_sensitive_key_values t = redact_fields (length t) 0 t

unfoldable pub redact_sensitive : Text → Text
redact_sensitive t =
    redact_sensitive_tokens (redact_sensitive_key_values (redact_sensitive_headers t))
