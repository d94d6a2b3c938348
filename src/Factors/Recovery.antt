-- ===== src/Factors/Recovery.antt =====
-- crates/sunbolt-auth/src/recovery_codes.rs and the calls on recovery codes. SHA-256, the lower case
-- of Unicode and the random codes are arguments.
use sunbolt.Base.{
  ℕ, zero, suc, ◌/◌, ◌%◌, ◌++◌, Bool, true, false, not, ◌&&◌, ◌||◌, none, some, List, [], ◌∷◌, Text,
  text, text_eq, nat_keys, nat_eq, if◌then◌else◌, Result, ok, err, map, find, update_first, length,
  drop,
}
use sunbolt.Base.Trim.{white_length}
use sunbolt.Base.Numerals.{hex, hex_digit}
use sunbolt.Base.Dict.{lookup, insert}
use sunbolt.Auth.{User, AuthError, recovery_code_invalid, store_unavailable}
use sunbolt.Factors.{
  recovery_code, AuthFactorEnrollment, FactorResult, StoredRecoveryCode, FactorStore, enroll_factor,
  factor_of_user,
}

pub record RecoveryCodeBatch : Type 0 where
  pub factor : AuthFactorEnrollment
  pub codes : List Text

-- The characters of a text that are no white space; each round takes a byte at least.
unfoldable pub without_white : ℕ → Text → Text
without_white zero t = []
without_white (suc fuel) [] = []
without_white (suc fuel) (a ∷ t) =
    let rest = without_white fuel t in
    elim (white_length (a ∷ t)) [ zero ↦ a ∷ rest | suc n ↦ without_white fuel (drop n t) ]

-- The text of a code from its ten random bytes, with a dash before the fifth and the eighth.
unfoldable pub code_from : ℕ → List ℕ → Text
code_from index [] = []
code_from index (byte ∷ bytes) =
    let rest = hex_digit (byte / 16) ∷ hex_digit (byte % 16) ∷ code_from (suc index) bytes in
    if nat_eq index 4 || nat_eq index 7 then b'-' ∷ rest else rest

unfoldable pub generate_recovery_code : List ℕ → Text
generate_recovery_code bytes = code_from 0 bytes

abbrev pub recovery_code_factor_label : Text
recovery_code_factor_label = text "Recovery codes"

-- The factor that stands for none when codes are generated anew.
abbrev pub no_factor : ℕ → AuthFactorEnrollment
no_factor user_id = record {
  id = 0;
  user_id = user_id;
  factor_type = recovery_code;
  label = recovery_code_factor_label;
  enabled = true;
}

abbrev pub is_usable : Text → StoredRecoveryCode → Bool
is_usable hash code = text_eq code.hash hash && not code.used

abbrev pub spend : StoredRecoveryCode → StoredRecoveryCode
spend code = record code { used = true }

-- The rest of `verify_recovery_code`, with the factor's codes.
unfoldable pub use_code :
    User → AuthFactorEnrollment → Text → FactorStore → Result AuthError FactorResult × FactorStore
use_code user factor hash s = elim (lookup factor.id s.recovery_codes_by_factor_id) [
  | none ↦ (err recovery_code_invalid, s)
  | some codes ↦ elim (find (is_usable hash) codes) [
    | none ↦ (err recovery_code_invalid, s)
    | some _ ↦ (
      ok (record { user_id = user.id; factor_type = recovery_code; verified = true }),
      record s {
        recovery_codes_by_factor_id =
            insert factor.id (update_first (is_usable hash) spend codes)
              s.recovery_codes_by_factor_id;
      },
    )
  ]
]

unfoldable pub store_recovery_code_records :
    ℕ → List StoredRecoveryCode → FactorStore → Result AuthError (Unit {0}) × FactorStore
store_recovery_code_records factor_id records s =
    if s.accounts.poisoned then (err (store_unavailable (text "recovery-codes")), s) else (
      ok tt,
      record s {
        recovery_codes_by_factor_id = insert factor_id records s.recovery_codes_by_factor_id;
      },
    )

module _ (digest : List ℕ → List ℕ) (to_lowercase : Text → Text) where
  unfoldable pub normalize_recovery_code : Text → Text
  normalize_recovery_code code = to_lowercase (without_white (length code) code)

  unfoldable pub hash_recovery_code : Text → Text
  hash_recovery_code code =
      hex (digest (text "sunbolt-recovery-code-v1:" ++ normalize_recovery_code code))

  unfoldable pub recovery_code_records : List Text → List StoredRecoveryCode
  recovery_code_records codes =
      map (λ code. record { hash = hash_recovery_code code; used = false }) codes

  -- The end of both calls that make codes.
  unfoldable pub issue_codes :
      AuthFactorEnrollment
      → List Text
      → FactorStore
      → Result AuthError RecoveryCodeBatch × FactorStore
  issue_codes factor codes s =
      let (stored, after) = store_recovery_code_records factor.id (recovery_code_records codes) s in
      (elim stored [ err e ↦ err e | ok _ ↦ ok (record { factor = factor; codes = codes }) ], after)

  unfoldable pub generate_recovery_codes :
      ℕ → List Text → FactorStore → Result AuthError RecoveryCodeBatch × FactorStore
  generate_recovery_codes user_id codes s =
      let (answer, after) = enroll_factor user_id recovery_code recovery_code_factor_label s in
      elim answer [ err e ↦ (err e, after) | ok factor ↦ issue_codes factor codes after ]

  unfoldable pub regenerate_recovery_codes :
      ℕ → List Text → FactorStore → Result AuthError RecoveryCodeBatch × FactorStore
  regenerate_recovery_codes user_id codes s =
      elim (factor_of_user recovery_code (text "recovery-codes") user_id s) [
        | err e ↦ (err e, s)
        | ok none ↦ generate_recovery_codes user_id codes s
        | ok (some factor) ↦
            if nat_eq factor.id 0
            then generate_recovery_codes user_id codes s
            else issue_codes factor codes s
      ]

  unfoldable pub verify_recovery_code :
      User → Text → FactorStore → Result AuthError FactorResult × FactorStore
  verify_recovery_code user code s =
      elim (factor_of_user recovery_code (text "recovery-codes") user.id s) [
        | err e ↦ (err e, s)
        | ok none ↦ (err recovery_code_invalid, s)
        | ok (some factor) ↦
            if s.accounts.poisoned
            then (err (store_unavailable (text "recovery-codes")), s)
            else use_code user factor (hash_recovery_code code) s
      ]
