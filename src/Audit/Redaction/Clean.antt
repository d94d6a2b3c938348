-- ===== src/Audit/Redaction/Clean.antt =====
-- What a redacted message does not show.
use sunbolt.Base.{
  ℕ, ◌++◌, ◌≡◌, ◌↔◌, refl, sym, ◌∙◌, ap, subst, Bool, true, false, not, List, [], ◌∷◌, Text,
  if◌then◌else◌, all, arith, Bool-cases, inl, inr,
}
use sunbolt.Audit.Redaction.{
  is_token_byte, is_sensitive_token, shown, redact_tokens_from, redact_sensitive_tokens,
  is_long_hex_token, has_code_shape, redact_sensitive_headers,
}
use sunbolt.Audit.Redaction.Fields.{redact_sensitive, redact_sensitive_key_values}

-- The runs of token bytes of a text, empty ones included, after a run that is begun.
unfoldable pub runs_from : Text → Text → List Text
runs_from run [] = run ∷ []
runs_from run (b ∷ t) =
    let longer = runs_from (run ++ b ∷ []) t in
    let rest = runs_from [] t in if is_token_byte b then longer else run ∷ rest

-- No run of a text is sensitive.
unfoldable pub shows_no_token : Text → Bool
shows_no_token t = all (λ run. not (is_sensitive_token run)) (runs_from [] t)

append_assoc : (a b c : Text) → (a ++ b) ++ c ≡ a ++ (b ++ c)
append_assoc [] b c = refl
append_assoc (x ∷ a) b c = ap (λ t. x ∷ t) (append_assoc a b c)

append_nil : (a : Text) → a ++ [] ≡ a
append_nil [] = refl
append_nil (x ∷ a) = ap (λ t. x ∷ t) (append_nil a)

all_snoc :
    (p : ℕ → Bool) (a : Text) (b : ℕ) → all p a ≡ true → p b ≡ true → all p (a ++ b ∷ []) ≡ true
all_snoc p [] b h hit = ground (arith, hit)
all_snoc p (x ∷ a) b h hit = ground (arith, all_snoc p a b (ground arith) hit)

-- A run is read in one go.
runs_from-append :
    (before run t : Text)
    → all is_token_byte run ≡ true
    → runs_from before (run ++ t) ≡ runs_from (before ++ run) t
unfolding runs_from
runs_from-append before [] t h = ap (λ r. runs_from r t) (sym (append_nil before))
runs_from-append before (b ∷ run) t h =
    let hit : is_token_byte b ≡ true = ground arith in
    let rest : all is_token_byte run ≡ true = ground arith in
    rw hit (
      runs_from-append (before ++ b ∷ []) run t rest
      ∙ ap (λ r. runs_from r t) (append_assoc before (b ∷ []) run))

-- What is shown of a run is no sensitive run, alone or before another byte.
shown-clean : (run : Text) → all is_token_byte run ≡ true → shows_no_token (shown run) ≡ true
unfolding shows_no_token shown
shown-clean run h = elim (Bool-cases (is_sensitive_token run)) [
  | inl secret ↦
      rw secret
        (unfold runs_from is_token_byte is_sensitive_token is_long_hex_token has_code_shape in refl)
  | inr harmless ↦
      let one : runs_from [] run ≡ run ∷ [] =
        ap (runs_from []) (sym (append_nil run))
        ∙ runs_from-append [] run [] h
        ∙ (unfold runs_from in refl) in
      rw harmless (rw one (ground (arith, harmless)))
]

runs_from-break :
    (run : Text) (b : ℕ) (t : Text)
    → all is_token_byte run ≡ true
    → is_token_byte b ≡ false
    → runs_from [] (run ++ b ∷ t) ≡ run ∷ runs_from [] t
runs_from-break run b t h miss =
    runs_from-append [] run (b ∷ t) h ∙ (unfold runs_from in ground (arith, miss))

shown-break :
    (run : Text) (b : ℕ) (t : Text)
    → all is_token_byte run ≡ true
    → is_token_byte b ≡ false
    → shows_no_token t ≡ true
    → shows_no_token (shown run ++ b ∷ t) ≡ true
unfolding shows_no_token shown
shown-break run b t h miss clean = elim (Bool-cases (is_sensitive_token run)) [
  | inl secret ↦ rw secret (
      unfold runs_from is_token_byte is_sensitive_token is_long_hex_token has_code_shape in
      ground (arith, miss, clean))
  | inr harmless ↦
      rw harmless (rw (runs_from-break run b t h miss) (ground (arith, harmless, clean)))
]

redact_tokens_from-clean :
    (run t : Text) → all is_token_byte run ≡ true → shows_no_token (redact_tokens_from run t) ≡ true
unfolding redact_tokens_from
redact_tokens_from-clean run [] h = shown-clean run h
redact_tokens_from-clean run (b ∷ t) h = elim (Bool-cases (is_token_byte b)) [
  | inl hit ↦
      rw hit (redact_tokens_from-clean (run ++ b ∷ []) t (all_snoc is_token_byte run b h hit))
  | inr miss ↦
      rw miss
        (shown-break run b (redact_tokens_from [] t) h miss (redact_tokens_from-clean [] t refl))
]

redact_tokens_from-same :
    (run t : Text)
    → all (λ r. not (is_sensitive_token r)) (runs_from run t) ≡ true
    → redact_tokens_from run t ≡ run ++ t
unfolding runs_from redact_tokens_from shown
redact_tokens_from-same run [] clean =
    let harmless : is_sensitive_token run ≡ false = ground arith in
    rw harmless (sym (append_nil run))
redact_tokens_from-same run (b ∷ t) clean = elim (Bool-cases (is_token_byte b)) [
  | inl hit ↦ rw hit (
      redact_tokens_from-same (run ++ b ∷ []) t (ground (arith, hit)) ∙ append_assoc run (b ∷ []) t)
  | inr miss ↦
      let harmless : is_sensitive_token run ≡ false = ground (arith, miss) in
      rw miss
        (rw harmless (ap (λ r. run ++ b ∷ r) (redact_tokens_from-same [] t (ground (arith, miss)))))
]

-- `redact_sensitive_tokens` leaves a text as it is just if no run of token bytes in it is a
-- hexadecimal number of 32 digits or more or has the shape of a recovery code.
pub redact_sensitive_tokens_iff :
    (t : Text) → (redact_sensitive_tokens t ≡ t) ↔ (shows_no_token t ≡ true)
unfolding redact_sensitive_tokens shows_no_token
redact_sensitive_tokens_iff t = (
  λ same. subst (λ r. shows_no_token r ≡ true) same (redact_tokens_from-clean [] t refl),
  λ clean. redact_tokens_from-same [] t clean,
)

-- No run of token bytes in a redacted message is a hexadecimal number of 32 digits or more or has the
-- shape of a recovery code, and redacting its tokens once more leaves the message as it is.
pub redact_sensitive-clean :
    (t : Text)
    → (shows_no_token (redact_sensitive t) ≡ true)
      × (redact_sensitive_tokens (redact_sensitive t) ≡ redact_sensitive t)
unfolding redact_sensitive redact_sensitive_tokens
redact_sensitive-clean t =
    let before = redact_sensitive_key_values (redact_sensitive_headers t) in
    let clean = redact_tokens_from-clean [] before refl in
    (clean, (redact_sensitive_tokens_iff (redact_tokens_from [] before)).1 clean)
