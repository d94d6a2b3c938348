-- ===== src/Audit/Redaction.antt =====
-- crates/sunbolt-audit/src/redaction.rs: what is taken out of a message. A position in a text is
-- the text from there on and, where the code looks back, the byte before it.
use sunbolt.Base.{
  ℕ, zero, suc, ◌+◌, ◌-◌, ◌++◌, Bool, not, ◌&&◌, ◌||◌, List, [], ◌∷◌, Text, text, text_eq, leb,
  nat_eq, if◌then◌else◌, map, all, length,
}
use sunbolt.Base.Trim.{trim_start}
use sunbolt.Auth.{lower}
pub mod Fields
mod Tests
pub mod Clean
pub mod Fuel

abbrev pub redaction : Text
redaction = text "[REDACTED]"

abbrev pub sensitive_keys : List Text
sensitive_keys =
    text "authorization"
    ∷ text "cookie"
    ∷ text "set_cookie"
    ∷ text "password"
    ∷ text "secret"
    ∷ text "token"
    ∷ text "session_token"
    ∷ text "reconnect_token"
    ∷ text "enrollment_token"
    ∷ text "sunbolt_agent_enrollment_token"
    ∷ text "credential_secret"
    ∷ text "credential_proof"
    ∷ text "node_credential"
    ∷ text "node_credentials"
    ∷ text "recovery_code"
    ∷ text "recovery_codes"
    ∷ text "passkey_credential"
    ∷ text "credential_id"
    ∷ text "allowed_credential_ids"
    ∷ text "public_key"
    ∷ text "challenge"
    ∷ text "challenge_id"
    ∷ text "raw_id"
    ∷ text "attestation_object"
    ∷ text "client_data_json"
    ∷ text "authenticator_data"
    ∷ text "signature"
    ∷ text "user_handle"
    ∷ []

-- `split` at the first byte that fails a test.
unfoldable pub span_while : (ℕ → Bool) → Text → Text × Text
span_while p [] = ([], [])
span_while p (b ∷ t) =
    let (front, rest) = span_while p t in if p b then (b ∷ front, rest) else ([], b ∷ t)

unfoldable pub take : ℕ → Text → Text
take zero t = []
take (suc n) [] = []
take (suc n) (b ∷ t) = b ∷ take n t

abbrev pub is_digit : ℕ → Bool
is_digit b = leb b'0' b && leb b b'9'

abbrev pub is_letter : ℕ → Bool
is_letter b = (leb b'A' b && leb b b'Z') || (leb b'a' b && leb b b'z')

abbrev pub is_hex_digit : ℕ → Bool
is_hex_digit b = is_digit b || (leb b'A' b && leb b b'F') || (leb b'a' b && leb b b'f')

abbrev pub is_ascii_whitespace : ℕ → Bool
is_ascii_whitespace b = nat_eq b 32 || nat_eq b 9 || nat_eq b 10 || nat_eq b 12 || nat_eq b 13

abbrev pub is_identifier_byte : ℕ → Bool
is_identifier_byte b = is_digit b || is_letter b || nat_eq b b'_' || nat_eq b b'-'

unfoldable pub is_token_byte : ℕ → Bool
is_token_byte b =
    is_digit b || is_letter b || nat_eq b b'-' || nat_eq b b'_' || nat_eq b b'.' || nat_eq b b':'

unfoldable pub is_sensitive_header_name : Text → Bool
is_sensitive_header_name name =
    text_eq (map lower name) (text "cookie")
    || text_eq (map lower name) (text "set-cookie")
    || text_eq (map lower name) (text "authorization")

abbrev pub is_colon : ℕ → Bool
is_colon b = nat_eq b b':'

-- A line without its newline, as `append_redacted_header_line` writes it.
unfoldable pub redact_header_line : Text → Text
redact_header_line line =
    let trimmed = trim_start (length line) line in
    let (name, rest) = span_while (λ b. not (is_colon b)) trimmed in
    elim rest [
      | [] ↦ line
      | _ ∷ _ ↦
          if is_sensitive_header_name name
          then take (length line - length trimmed) line ++ name ++ text ": " ++ redaction
          else line
    ]

-- The lines of a text, each with its newline put back.
unfoldable pub redact_headers_from : Text → Text → Text
redact_headers_from line [] = if nat_eq (length line) 0 then [] else redact_header_line line
redact_headers_from line (b ∷ t) =
    let later = redact_headers_from (line ++ b ∷ []) t in
    let next_lines = redact_headers_from [] t in
    if nat_eq b 10 then redact_header_line line ++ b ∷ next_lines else later

unfoldable pub redact_sensitive_headers : Text → Text
redact_sensitive_headers t = redact_headers_from [] t

unfoldable pub is_long_hex_token : Text → Bool
is_long_hex_token candidate = leb 32 (length candidate) && all is_hex_digit candidate

-- Whether the bytes from an index on have the shape of a recovery code.
unfoldable pub has_code_shape : ℕ → Text → Bool
has_code_shape index [] = nat_eq index 22
has_code_shape index (b ∷ t) =
    let rest = has_code_shape (index + 1) t in
    if nat_eq index 8 || nat_eq index 15 then nat_eq b b'-' && rest else is_hex_digit b && rest

unfoldable pub is_sensitive_token : Text → Bool
is_sensitive_token candidate = is_long_hex_token candidate || has_code_shape 0 candidate

-- What is written for a run of token bytes.
unfoldable pub shown : Text → Text
shown run = if is_sensitive_token run then redaction else run

-- The loop of `redact_sensitive_tokens`, with the run before the position.
unfoldable pub redact_tokens_from : Text → Text → Text
redact_tokens_from run [] = shown run
redact_tokens_from run (b ∷ t) =
    let longer = redact_tokens_from (run ++ b ∷ []) t in
    let rest = redact_tokens_from [] t in if is_token_byte b then longer else shown run ++ b ∷ rest

unfoldable pub redact_sensitive_tokens : Text → Text
redact_sensitive_tokens t = redact_tokens_from [] t
