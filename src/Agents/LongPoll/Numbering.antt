-- ===== src/Agents/LongPoll/Numbering.antt =====
-- The envelopes of an answer are numbered one after the other, and the commands stay in order.
use native.Mathlib.Nat.{zero-add}
use mathlib.Core.List.{append_assoc, append-nil}
use sunbolt.Base.{
  ℕ, zero, suc, ◌+◌, ◌++◌, ◌≤◌, ◌<◌, subst, nat_eq_iff, ltb→lt, ◌≡◌, refl, sym, ap, ap₂, ◌∙◌, max,
  map, Bool, Option, none, some, List, [], ◌∷◌, length, ltb, nat_eq, ok, err, arith, Result,
  Bool-cases, inl, inr,
}
use sunbolt.Protocol.{AgentTerminalCommand, AgentTerminalEvent}
use sunbolt.Transport.{
  AgentTransportEnvelope, AgentTransportPayload, AgentTransportError, server_hello, heartbeat, pong,
  terminal_command, transport_error, current, next,
}
use sunbolt.Agents.Negotiation.{AgentTransportHandshake, hello_to}
use sunbolt.Agents.Frames.{
  TransportFrameOutcome, heartbeat_received, terminal_event_received, ignored,
  handle_agent_transport_envelope,
}
use sunbolt.Agents.LongPoll.{
  Poll, emit, answer_frame, sent_with, answer_events, take_commands, wait_command,
  append_long_poll_commands, answer_long_poll, long_poll_batch,
}

-- The k numbers from `n` on, and the one after them.
abbrev pub numbers_from : ℕ → ℕ → List ℕ
numbers_from n zero = []
numbers_from n (suc k) = n ∷ numbers_from (next n) k

abbrev pub number_after : ℕ → ℕ → ℕ
number_after n zero = n
number_after n (suc k) = number_after (next n) k

numbers_from-snoc : (n k : ℕ) → numbers_from n (suc k) ≡ numbers_from n k ++ number_after n k ∷ []
numbers_from-snoc n zero = refl
numbers_from-snoc n (suc k) = ap (λ ns. n ∷ ns) (numbers_from-snoc (next n) k)

number_after-next : (n k : ℕ) → next (number_after n k) ≡ number_after n (suc k)
number_after-next n zero = refl
number_after-next n (suc k) = number_after-next (next n) k

abbrev pub ids : List AgentTransportEnvelope → List ℕ
ids envelopes = map (λ e. e.message_id) envelopes

-- The envelopes carry the numbers from `n` on, and the counter is the number after them.
abbrev pub IsNumbered : ℕ → Poll → Type 0
IsNumbered n p =
    (ids p.envelopes ≡ numbers_from n (length p.envelopes))
    × (p.next_message_id ≡ number_after n (length p.envelopes))

ids-snoc :
    (xs : List AgentTransportEnvelope) (e : AgentTransportEnvelope)
    → ids (xs ++ e ∷ []) ≡ ids xs ++ e.message_id ∷ []
ids-snoc [] e = refl
ids-snoc (x ∷ xs) e = ap (λ ns. x.message_id ∷ ns) (ids-snoc xs e)

length-snoc :
    (xs : List AgentTransportEnvelope) (e : AgentTransportEnvelope)
    → length (xs ++ e ∷ []) ≡ suc (length xs)
length-snoc [] e = refl
length-snoc (x ∷ xs) e = ap suc (length-snoc xs e)

emit-IsNumbered :
    (n : ℕ) (h : AgentTransportHandshake) (payload : AgentTransportPayload) (p : Poll)
    → IsNumbered n p
    → IsNumbered n (emit h payload p)
unfolding current
emit-IsNumbered n h payload p (numbered, counter) =
    let e = current p.next_message_id h.node_id h.transport_id payload in
    let k = length p.envelopes in
    (
      ids-snoc p.envelopes e
          ∙ ap₂ (λ ns m. ns ++ m ∷ []) numbered counter
          ∙ sym (numbers_from-snoc n k)
          ∙ ap (numbers_from n) (sym (length-snoc p.envelopes e)),
      ap next counter
          ∙ number_after-next n k
          ∙ ap (number_after n) (sym (length-snoc p.envelopes e)),
    )

answer_frame-IsNumbered :
    (n : ℕ) (h : AgentTransportHandshake) (r : Result AgentTransportError TransportFrameOutcome)
    (p : Poll)
    → IsNumbered n p
    → IsNumbered n (answer_frame h r p)
unfolding answer_frame
answer_frame-IsNumbered n h (ok (heartbeat_received id)) p ok_p =
    emit-IsNumbered n h (heartbeat (pong id 0)) p ok_p
answer_frame-IsNumbered n h (ok terminal_event_received) p ok_p = ok_p
answer_frame-IsNumbered n h (ok ignored) p ok_p = ok_p
answer_frame-IsNumbered n h (err error) p ok_p = emit-IsNumbered n h (transport_error error) p ok_p

sent_with-IsNumbered :
    (n : ℕ) (event : Option AgentTerminalEvent) (p : Poll)
    → IsNumbered n p
    → IsNumbered n (sent_with event p)
sent_with-IsNumbered n none p ok_p = ok_p
sent_with-IsNumbered n (some event) p ok_p = ok_p

answer_events-IsNumbered :
    (n : ℕ) (h : AgentTransportHandshake) (events : List (AgentTransportEnvelope × Bool)) (p : Poll)
    → IsNumbered n p
    → IsNumbered n (answer_events h events p)
unfolding answer_events
answer_events-IsNumbered n h [] p ok_p = ok_p
answer_events-IsNumbered n h ((e, taken) ∷ events) p ok_p =
    let (outcome, event) = handle_agent_transport_envelope h e taken in
    answer_events-IsNumbered n h events (answer_frame h outcome (sent_with event p)) (
      answer_frame-IsNumbered n h outcome (sent_with event p) (sent_with-IsNumbered n event p ok_p))

-- The commands that an answer carries, in their order.
abbrev pub command_of : AgentTransportPayload → List AgentTerminalCommand
command_of (terminal_command c) = c ∷ []
command_of _ = []

abbrev pub commands_of : List AgentTransportEnvelope → List AgentTerminalCommand
commands_of [] = []
commands_of (e ∷ envelopes) = command_of e.payload ++ commands_of envelopes

commands_of-snoc :
    (xs : List AgentTransportEnvelope) (e : AgentTransportEnvelope)
    → commands_of (xs ++ e ∷ []) ≡ commands_of xs ++ command_of e.payload
commands_of-snoc [] e = simp append-nil
commands_of-snoc (x ∷ xs) e =
    ap (λ cs. command_of x.payload ++ cs) (commands_of-snoc xs e)
    ∙ sym (append_assoc (command_of x.payload) (commands_of xs) (command_of e.payload))

-- Numbered, with these commands in it and at most so many envelopes.
abbrev pub IsAnswer : ℕ → List AgentTerminalCommand → ℕ → Poll → Type 0
IsAnswer n commands most p =
    IsNumbered n p × (commands_of p.envelopes ≡ commands) × (length p.envelopes ≤ most)

emit-quiet :
    (n most : ℕ) (h : AgentTransportHandshake) (payload : AgentTransportPayload) (p : Poll)
    (commands : List AgentTerminalCommand)
    → command_of payload ≡ []
    → IsAnswer n commands most p
    → IsAnswer n commands (suc most) (emit h payload p)
unfolding current
emit-quiet n most h payload p commands quiet (numbered, said, size) =
    let e = current p.next_message_id h.node_id h.transport_id payload in
    (
      emit-IsNumbered n h payload p numbered,
      commands_of-snoc p.envelopes e ∙ ap₂ ◌++◌ said quiet ∙ append-nil commands,
      omega (arith, length-snoc p.envelopes e),
    )

emit-command :
    (n most : ℕ) (h : AgentTransportHandshake) (c : AgentTerminalCommand) (p : Poll)
    (commands : List AgentTerminalCommand)
    → length p.envelopes < most
    → IsAnswer n commands most p
    → IsAnswer n (commands ++ c ∷ []) most (emit h (terminal_command c) p)
unfolding current
emit-command n most h c p commands small (numbered, said, size) =
    let e = current p.next_message_id h.node_id h.transport_id (terminal_command c) in
    (
      emit-IsNumbered n h (terminal_command c) p numbered,
      commands_of-snoc p.envelopes e ∙ ap (λ cs. cs ++ c ∷ []) said,
      omega (arith, length-snoc p.envelopes e),
    )

answer_frame-IsAnswer :
    (n most : ℕ) (h : AgentTransportHandshake)
    (r : Result AgentTransportError TransportFrameOutcome) (p : Poll)
    → IsAnswer n [] most p
    → IsAnswer n [] (suc most) (answer_frame h r p)
unfolding answer_frame
answer_frame-IsAnswer n most h (ok (heartbeat_received id)) p a =
    emit-quiet n most h (heartbeat (pong id 0)) p [] refl a
answer_frame-IsAnswer n most h (ok terminal_event_received) p (numbered, said, size) =
    (numbered, said, omega arith)
answer_frame-IsAnswer n most h (ok ignored) p (numbered, said, size) = (numbered, said, omega arith)
answer_frame-IsAnswer n most h (err error) p a =
    emit-quiet n most h (transport_error error) p [] refl a

sent_with-IsAnswer :
    (n most : ℕ) (event : Option AgentTerminalEvent) (p : Poll)
    → IsAnswer n [] most p
    → IsAnswer n [] most (sent_with event p)
sent_with-IsAnswer n most none p a = a
sent_with-IsAnswer n most (some event) p a = a

answer_events-IsAnswer :
    (n most : ℕ) (h : AgentTransportHandshake) (events : List (AgentTransportEnvelope × Bool))
    (p : Poll)
    → IsAnswer n [] most p
    → IsAnswer n [] (length events + most) (answer_events h events p)
unfolding answer_events
answer_events-IsAnswer n most h [] p a = simp zero-add a
answer_events-IsAnswer n most h ((e, taken) ∷ events) p a =
    let (outcome, event) = handle_agent_transport_envelope h e taken in
    let (numbered, said, size) =
      answer_events-IsAnswer n (suc most) h events (answer_frame h outcome (sent_with event p)) (
        answer_frame-IsAnswer n most h outcome (sent_with event p)
          (sent_with-IsAnswer n most event p a)) in
    (numbered, said, omega arith)

-- After the commands in `before`, those in `commands` are said in order, as far as they fit.
abbrev pub Delivers : ℕ → List AgentTerminalCommand → ℕ → Poll × List AgentTerminalCommand → Type 0
Delivers n all most (p, left) =
    IsNumbered n p × (commands_of p.envelopes ++ left ≡ all) × (length p.envelopes ≤ most)

take_commands-Delivers :
    (n most : ℕ) (h : AgentTransportHandshake) (commands before : List AgentTerminalCommand)
    (p : Poll)
    → long_poll_batch ≤ most
    → IsAnswer n before most p
    → Delivers n (before ++ commands) most (take_commands h commands p)
unfolding take_commands
take_commands-Delivers n most h [] before p room (numbered, said, size) =
    (numbered, ap (λ cs. cs ++ []) said, size)
take_commands-Delivers n most h (c ∷ commands) before p room (numbered, said, size) =
    elim (Bool-cases (ltb (length p.envelopes) long_poll_batch)) [
      | inl fits ↦
          let more : Delivers n ((before ++ c ∷ []) ++ commands) most
              (take_commands h commands (emit h (terminal_command c) p)) =
            take_commands-Delivers n most h commands (before ++ c ∷ [])
              (emit h (terminal_command c) p) room
              (emit-command n most h c p before
                (omega (arith, ltb→lt (length p.envelopes) long_poll_batch fits))
                (numbered, said, size)) in
          simp fits (
            subst
              (λ all.
                Delivers n all most (take_commands h commands (emit h (terminal_command c) p)))
              (append_assoc before (c ∷ []) commands) more)
      | inr full ↦ simp full (numbered, ap (λ cs. cs ++ c ∷ commands) said, size)
    ]

wait_command-Delivers :
    (n most : ℕ) (h : AgentTransportHandshake) (commands : List AgentTerminalCommand) (p : Poll)
    → long_poll_batch ≤ most
    → IsAnswer n [] most p
    → Delivers n commands most (append_long_poll_commands h commands p)
unfolding append_long_poll_commands wait_command
wait_command-Delivers n most h [] p room a = take_commands-Delivers n most h [] [] p room a
wait_command-Delivers n most h (c ∷ commands) p room (numbered, said, size) =
    elim (Bool-cases (nat_eq (length p.envelopes) 1)) [
      | inl alone ↦ simp alone (
          take_commands-Delivers n most h commands (c ∷ []) (emit h (terminal_command c) p) room (
            emit-command n most h c p []
              (omega (arith, (nat_eq_iff (length p.envelopes) 1).0 alone)) (numbered, said, size)))
      | inr busy ↦
          simp busy
            (take_commands-Delivers n most h (c ∷ commands) [] p room (numbered, said, size))
    ]

-- The answer to a long poll numbers its envelopes one after the other from the connection's counter
-- on and leaves the counter after them; the commands in it and those left for later are all the
-- commands, in their order; and it has at most 32 envelopes, or one for the hello and each event.
pub answer_long_poll-Delivers :
    (h : AgentTransportHandshake) (events : List (AgentTransportEnvelope × Bool))
    (commands : List AgentTerminalCommand) (n : ℕ)
    → Delivers n commands (max 32 (length events + 1)) (answer_long_poll h events commands n)
unfolding answer_long_poll current
answer_long_poll-Delivers h events commands n =
    let opened =
      emit h (server_hello (hello_to h))
        (record { envelopes = []; next_message_id = n; sent = [] }) in
    let (numbered, said, size) =
      answer_events-IsAnswer n 1 h events opened ((refl, refl), refl, omega arith) in
    wait_command-Delivers n (max 32 (length events + 1)) h commands (answer_events h events opened)
      (omega arith) (numbered, said, omega arith)
