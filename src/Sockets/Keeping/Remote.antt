-- ===== src/Sockets/Keeping/Remote.antt =====
-- What a step for a terminal on a node keeps of the session registry: an agent's event may name any
-- session.
use sunbolt.Base.{Bool, Option, Text, Result, Bool-cases, inl, inr}
use sunbolt.Terminal.{active}
use sunbolt.Protocol.{
  TerminalServerMessage, TerminalClientMessage, AgentTerminalEvent, TerminalTransportStatus,
  terminal_started, terminal_output, terminal_exited, terminal_error,
}
use sunbolt.Registry.{Registry, record_output, remember_server_message}
use sunbolt.Sockets.{
  AppState, emit, on_sessions, send_error, record_event, agent_event_to_browser_message,
}
use sunbolt.Sockets.Loops.{Loop, deliver, is_exit, is_output, is_started, is_error, with_app}
use sunbolt.Sockets.Loops.Remote.{
  RemoteEvent, receives_event, agent_leaves, browser_leaves_remote, receives_remote_frame,
  Attachment, note_message, remember, pass_on, remote_step,
}
use sunbolt.Sockets.Keeping.{IsKept, handle_remote_client_frame-keeps}
use sunbolt.Sockets.Keeping.Steps.{deliver-keeps, lose_browser-keeps}

-- A predicate that every method but insertion and reattachment keeps.
pub record IsKeptByAll (P : Registry → Type 0) : Type 0 where
  pub at : (id : Text) → IsKept id P
  pub outputs : (id payload : Text) (r : Registry) → P r → P (record_output id payload r).1
  pub remembers :
      (message : TerminalServerMessage) (r : Registry) → P r → P (remember_server_message message r)

module _ (P : Registry → Type 0) (k : IsKeptByAll P) where
  agent_event-keeps :
      (e : AgentTerminalEvent) (node_id : Text) (status : Option TerminalTransportStatus)
      (r : Registry)
      → P r
      → P (agent_event_to_browser_message e node_id status r).1
  unfolding agent_event_to_browser_message
  agent_event-keeps (terminal_started _ _) node_id status r h = h
  agent_event-keeps (terminal_output id payload) node_id status r h = k.outputs id payload r h
  agent_event-keeps (terminal_exited _ _) node_id status r h = h
  agent_event-keeps (terminal_error _ _) node_id status r h = h

  note_message-keeps :
      (actor_email node_id id : Text) (message : TerminalServerMessage) (l : Loop)
      → P l.app.sessions
      → P (note_message actor_email node_id id message l).app.sessions
  unfolding note_message record_event on_sessions emit
  note_message-keeps actor_email node_id id message l h = elim (Bool-cases (is_started message)) [
    | inl hit ↦ rw hit ((k.at id).sets active l.app.sessions h)
    | inr miss ↦ elim (Bool-cases (is_error message)) [
      | inl broken ↦ rw (miss, broken) h
      | inr fine ↦ rw (miss, fine) h
    ]
  ]

  remember-keeps :
      (message : TerminalServerMessage) (w : AppState)
      → P w.sessions
      → P (remember message w).sessions
  unfolding remember on_sessions
  remember-keeps message w h = elim (Bool-cases (is_output message)) [
    | inl hit ↦ rw hit h
    | inr miss ↦ rw miss (k.remembers message w.sessions h)
  ]

  pass_on-keeps :
      (actor_email id : Text) (message : TerminalServerMessage) (is_sent : Bool) (l : Loop)
      → P l.app.sessions
      → P (pass_on actor_email id message is_sent l).1.app.sessions
  unfolding pass_on on_sessions
  pass_on-keeps actor_email id message is_sent l h =
      let kept = deliver-keeps id P (k.at id) actor_email message is_sent l.app h in
      elim (Bool-cases (deliver actor_email id message is_sent l.app).0) [
        | inl taken ↦ elim (Bool-cases (is_exit message)) [
          | inl exit ↦ rw (taken, exit) ((k.at id).forgets _ kept)
          | inr other ↦ rw (taken, other) kept
        ]
        | inr refused ↦ rw refused kept
      ]

  pub remote_step-keeps :
      (from_str : Text → Result Text TerminalClientMessage) (a : Attachment) (id : Text)
      (e : RemoteEvent) (l : Loop)
      → P l.app.sessions
      → P (remote_step from_str a id e l).1.app.sessions
  unfolding remote_step on_sessions emit
  remote_step-keeps from_str a id (receives_event event is_sent) l h =
      let (message, r) = agent_event_to_browser_message event a.node_id a.status l.app.sessions in
      let read = with_app l (on_sessions (λ _. r) l.app) in
      let noted = note_message a.user.email a.node_id id message read in
      pass_on-keeps a.user.email id message is_sent _ (
        remember-keeps message noted.app (
          note_message-keeps a.user.email a.node_id id message read
            (agent_event-keeps event a.node_id a.status l.app.sessions h)))
  remote_step-keeps from_str a id agent_leaves l h = unfold send_error in h
  remote_step-keeps from_str a id (receives_remote_frame frame is_sent) l h =
      handle_remote_client_frame-keeps id P (k.at id) from_str a.user a.user.email a.command_tx
        is_sent frame l.app h
  remote_step-keeps from_str a id browser_leaves_remote l h =
      lose_browser-keeps id P (k.at id) a.user.email l.app h
