-- ===== src/Transport/Tests.antt =====
-- The policy of production, an envelope of output and a stream at the end of its numbers.
use sunbolt.Base.{◌≡◌, ◌≤◌, ◌^◌, ◌*◌, ◌↔◌, refl, min, max, none, [], ◌∷◌, text, ok, err, arith}
use sunbolt.Protocol.{terminal_output}
use sunbolt.Transport.{
  AgentTransportEnvelope, production_default, delay_from, delay_for_attempt, current, validate,
  validate_payload, is_valid, terminal_event, u64_max, missing_output_sequence,
}
use sunbolt.Transport.Backoff.{delay_for_attempt_lem, delay_for_attempt_monotone}
use sunbolt.Transport.Envelope.{Deserves, validate-Deserves}
use sunbolt.Transport.Stream.{receive, Follows, receive_iff}

delays : delay_for_attempt production_default 1 ≡ 2000
unfolding delay_for_attempt delay_from
delays = refl

delays_bounded : delay_for_attempt production_default 8 ≡ 30000
unfolding delay_for_attempt delay_from
delays_bounded = refl

delay_for_attempt_lem_example :
    delay_for_attempt production_default 8 ≡ min (max 1000 1 * max 2 1 ^ 8) 30000
delay_for_attempt_lem_example = delay_for_attempt_lem production_default 8 (omega arith)

delay_for_attempt_monotone_test :
    delay_for_attempt production_default 1 ≤ delay_for_attempt production_default 8
delay_for_attempt_monotone_test =
    delay_for_attempt_monotone production_default 1 8 (omega arith) (omega arith)

abbrev unnumbered : AgentTransportEnvelope
unnumbered =
    current 1 (text "node") (text "transport")
      (terminal_event none (terminal_output (text "session") (text "data")))

validate_test : validate unnumbered ≡ err missing_output_sequence
unfolding validate is_valid validate_payload current
validate_test = refl

validate-Deserves_example : Deserves unnumbered (validate unnumbered)
validate-Deserves_example = validate-Deserves unnumbered

receive_iff_test :
    (receive 18446744073709551614 (u64_max ∷ u64_max ∷ []) ≡ ok tt)
    ↔ Follows 18446744073709551614 (u64_max ∷ u64_max ∷ [])
receive_iff_test = receive_iff 18446744073709551614 (u64_max ∷ u64_max ∷ []) (omega arith)
