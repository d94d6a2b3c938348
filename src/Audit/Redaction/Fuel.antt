-- ===== src/Audit/Redaction/Fuel.antt =====
-- The rounds of the search for sensitive keys are enough.
use sunbolt.Base.{
  ℕ, zero, suc, ◌++◌, ◌≤◌, ◌<◌, ◌≡◌, refl, ap, sym, ◌∙◌, Bool, some, [], ◌∷◌, Text, if◌then◌else◌,
  length, length-drop, arith, Bool-cases, Option-cases, inl, inr,
}
use sunbolt.Audit.Redaction.{span_while, is_identifier_byte, is_ascii_whitespace}
use sunbolt.Audit.Redaction.Fields.{
  next_identifier, after_quote, delimiter_at, next_key_value_delimiter, value_at, value_bounds,
  is_sensitive_key, normalize_key, last_byte, redact_value, redact_fields,
  redact_sensitive_key_values, quoted_length, balanced_length, unquoted_length,
}

span_while-shorter : (p : ℕ → Bool) (t : Text) → length (span_while p t).1 ≤ length t
unfolding span_while
span_while-shorter p [] = omega arith
span_while-shorter p (b ∷ t) = ground (arith, span_while-shorter p t)

next_identifier-shorter :
    (before : ℕ) (t front key rest : Text)
    → next_identifier before t ≡ some (front, key, rest)
    → length rest < length t
unfolding next_identifier span_while
next_identifier-shorter before [] front key rest found = ground (arith, found)
next_identifier-shorter before (b ∷ t) front key rest found =
    elim (Bool-cases (is_identifier_byte b)) [
      | inl hit ↦ elim (Option-cases (next_identifier b t)) [
        | inl none' ↦ ground (arith, hit, none', span_while-shorter is_identifier_byte t)
        | inr (later, more) ↦ ground (
          arith,
          hit,
          more,
          span_while-shorter is_identifier_byte t,
          next_identifier-shorter b t later.0 later.1 later.2 more,
        )
      ]
      | inr miss ↦ elim (Option-cases (next_identifier b t)) [
        | inl none' ↦ ground (arith, miss, none')
        | inr (later, more) ↦
            ground (arith, miss, more, next_identifier-shorter b t later.0 later.1 later.2 more)
      ]
    ]

after_quote-shorter : (t : Text) → length (after_quote t).1 ≤ length t
after_quote-shorter [] = omega arith
after_quote-shorter (b ∷ t) = ground (arith, span_while-shorter is_ascii_whitespace t)

delimiter_at-shorter :
    (skipped t lead after : Text)
    → delimiter_at skipped t ≡ some (lead, after)
    → length after ≤ length t
delimiter_at-shorter skipped [] lead after found = ground (arith, found)
delimiter_at-shorter skipped (b ∷ t) lead after found = ground (arith, found)

next_key_value_delimiter-shorter :
    (t lead after : Text)
    → next_key_value_delimiter t ≡ some (lead, after)
    → length after ≤ length t
unfolding next_key_value_delimiter
next_key_value_delimiter-shorter t lead after found =
    let spaces = span_while is_ascii_whitespace t in
    let quoted = after_quote spaces.1 in
    omega (
      arith,
      span_while-shorter is_ascii_whitespace t,
      after_quote-shorter spaces.1,
      delimiter_at-shorter (spaces.0 ++ quoted.0) quoted.1 lead after found,
    )

value_at-shorter :
    (spaces t lead value after : Text)
    → value_at spaces t ≡ some (lead, value, after)
    → length after ≤ length t
value_at-shorter spaces [] lead value after found = ground (arith, found)
value_at-shorter spaces (b ∷ t) lead value after found = ground (
  arith,
  found,
  length-drop (quoted_length b t) t,
  length-drop (balanced_length (length (b ∷ t)) b'[' b']' 0 (b ∷ t)) (b ∷ t),
  length-drop (balanced_length (length (b ∷ t)) b'{' b'}' 0 (b ∷ t)) (b ∷ t),
  length-drop (unquoted_length (b ∷ t)) (b ∷ t),
)

value_bounds-shorter :
    (t lead value after : Text)
    → value_bounds t ≡ some (lead, value, after)
    → length after ≤ length t
unfolding value_bounds
value_bounds-shorter t lead value after found =
    let spaces = span_while is_ascii_whitespace t in
    omega (
      arith,
      span_while-shorter is_ascii_whitespace t,
      value_at-shorter spaces.0 spaces.1 lead value after found,
    )

redact_value-shorter :
    (before : ℕ) (rest : Text) → length (redact_value before rest).2 ≤ length rest
unfolding redact_value
redact_value-shorter before rest = elim (Option-cases (next_key_value_delimiter rest)) [
  | inl none' ↦ ground (arith, none')
  | inr ((delimiter, after), found) ↦ elim (Option-cases (value_bounds after)) [
    | inl none' ↦ ground (arith, found, none')
    | inr ((lead, value, after'), bounded) ↦ ground (
      arith,
      found,
      bounded,
      next_key_value_delimiter-shorter rest delimiter after found,
      value_bounds-shorter after lead value after' bounded,
    )
  ]
]

-- What a round leaves for the next one.
abbrev pub after_key : ℕ → Text → Text → Text × ℕ × Text
after_key before key rest =
    if is_sensitive_key (normalize_key key)
    then redact_value (last_byte before key) rest
    else ([], last_byte before key, rest)

after_key-shorter :
    (before : ℕ) (key rest : Text) → length (after_key before key rest).2 ≤ length rest
after_key-shorter before key rest = elim (Bool-cases (is_sensitive_key (normalize_key key))) [
  | inl hit ↦ rw hit (redact_value-shorter (last_byte before key) rest)
  | inr miss ↦ rw miss (omega arith)
]

-- A round that finds an identifier.
redact_fields-found :
    (fuel before : ℕ) (t front key rest : Text)
    → next_identifier before t ≡ some (front, key, rest)
    → redact_fields (suc fuel) before t
      ≡ front
        ++ key
        ++ (after_key before key rest).0
        ++ redact_fields fuel (after_key before key rest).1 (after_key before key rest).2
unfolding redact_fields
redact_fields-found fuel before t front key rest found = ground (arith, found)

redact_fields-enough :
    (fuel fuel' before : ℕ) (t : Text)
    → length t ≤ fuel
    → length t ≤ fuel'
    → redact_fields fuel before t ≡ redact_fields fuel' before t
unfolding redact_fields
redact_fields-enough zero zero before t h h' = refl
redact_fields-enough zero (suc fuel') before [] h h' = unfold next_identifier in refl
redact_fields-enough zero (suc fuel') before (b ∷ t) h h' = absurd (omega arith)
redact_fields-enough (suc fuel) zero before [] h h' = unfold next_identifier in refl
redact_fields-enough (suc fuel) zero before (b ∷ t) h h' = absurd (omega arith)
redact_fields-enough (suc fuel) (suc fuel') before t h h' =
    elim (Option-cases (next_identifier before t)) [
      | inl none' ↦ ground (arith, none')
      | inr ((front, key, rest), found) ↦
          let out = after_key before key rest in
          let shorter = next_identifier-shorter before t front key rest found in
          let left = after_key-shorter before key rest in
          redact_fields-found fuel before t front key rest found
          ∙ ap (λ r. front ++ key ++ out.0 ++ r)
              (redact_fields-enough fuel fuel' out.1 out.2 (omega (arith, shorter, left))
                (omega (arith, shorter, left)))
          ∙ sym (redact_fields-found fuel' before t front key rest found)
    ]

-- The search for sensitive keys comes to its end: it gives the same text with every number of rounds
-- that is not less than the length of the text.
pub redact_fields-length :
    (fuel : ℕ) (t : Text) → length t ≤ fuel → redact_fields fuel 0 t ≡ redact_sensitive_key_values t
unfolding redact_sensitive_key_values
redact_fields-length fuel t h = redact_fields-enough fuel (length t) 0 t h (omega arith)
