-- ===== src/Audit/Redaction/Tests.antt =====
-- Messages with secrets in them.
use sunbolt.Base.{◌≡◌, ◌↔◌, refl, true, Text, text, arith}
use sunbolt.Audit.Redaction.Fuel.{redact_fields-length}
use sunbolt.Base.Trim.{trim_start}
use sunbolt.Audit.Redaction.{
  redact_sensitive_headers, redact_headers_from, redact_header_line, span_while, take,
  is_sensitive_header_name, redact_sensitive_tokens, redact_tokens_from, shown, is_token_byte,
  is_sensitive_token, is_long_hex_token, has_code_shape,
}
use sunbolt.Audit.Redaction.Fields.{
  redact_sensitive, redact_sensitive_key_values, redact_fields, redact_value, next_identifier,
  is_sensitive_key, normalize_key, next_key_value_delimiter, value_bounds, quoted_length,
  balanced_length,
}
use sunbolt.Audit.Redaction.Clean.{
  shows_no_token, redact_sensitive_tokens_iff, redact_sensitive-clean,
}

header_test : redact_sensitive_headers (text " Cookie: a=b; c\nok") ≡ text " Cookie: [REDACTED]\nok"
unfolding redact_sensitive_headers redact_headers_from redact_header_line span_while take
    is_sensitive_header_name trim_start
header_test = refl

abbrev code : Text
code = text "code 000102ff-040506-070809 used"

token_test : redact_sensitive_tokens code ≡ text "code [REDACTED] used"
unfolding redact_sensitive_tokens redact_tokens_from shown is_token_byte is_sensitive_token
    is_long_hex_token has_code_shape
token_test = refl

redact_sensitive_tokens_iff_test :
    (redact_sensitive_tokens code ≡ code) ↔ (shows_no_token code ≡ true)
redact_sensitive_tokens_iff_test = redact_sensitive_tokens_iff code

redact_sensitive-clean_example :
    (shows_no_token (redact_sensitive code) ≡ true)
    × (redact_sensitive_tokens (redact_sensitive code) ≡ redact_sensitive code)
redact_sensitive-clean_example = redact_sensitive-clean code

field_test :
    redact_sensitive_key_values (text "a token=x1, {\"my-secret\": [\"p\", [1]], k='q'}")
    ≡ text "a token=[REDACTED], {\"my-secret\": [REDACTED], k='q'}"
unfolding redact_sensitive_key_values redact_fields redact_value next_identifier is_sensitive_key
    normalize_key next_key_value_delimiter value_bounds quoted_length balanced_length span_while
    take
field_test = refl

-- A header in the middle of a line keeps its second word.
inner_header_test :
    redact_sensitive_key_values (text "x authorization: Bearer k")
    ≡ text "x authorization: [REDACTED] k"
unfolding redact_sensitive_key_values redact_fields redact_value next_identifier is_sensitive_key
    normalize_key next_key_value_delimiter value_bounds quoted_length balanced_length span_while
    take
inner_header_test = refl

redact_fields-length_example : redact_fields 40 0 code ≡ redact_sensitive_key_values code
redact_fields-length_example = redact_fields-length 40 code (omega arith)
