-- ===== src/Sockets/Admission.antt =====
-- When a terminal is opened on a node.
use sunbolt.Base.{
  ℕ, ◌++◌, ◌≡◌, ◌∙◌, refl, true, some, List, [], ◌∷◌, Text, Result, ok, err, Bool-cases,
  Option-cases, Result-cases, inl, inr,
}
use sunbolt.Protocol.{TerminalSize, TerminalError, error, start_terminal}
use sunbolt.Registry.{
  TerminalSessionConfig, TerminalSessionInsert, SessionLimitError, remote, insert_remote, fresh,
  get,
}
use sunbolt.Registry.Inserted.{insert_backend-ok, insert_backend-err}
use sunbolt.Auth.{User}
use sunbolt.Auth.Rbac.{terminal_open}
use sunbolt.Nodes.{node_is_online}
use sunbolt.Routing.{NodeRoute, direct_agent, relay_node, select_route, route_id}
use sunbolt.Agents.{RegisteredAgentConnection, terminal_transport_status, connection}
use sunbolt.Sockets.{
  AppState, Effect, sends, commands, emit, send_error, record_event, record_route_failed,
  record_route_selected, is_permitted,
}
use sunbolt.Sockets.Ending.{try_command-sessions}
use sunbolt.Sockets.Loops.{Loop}
use sunbolt.Sockets.Opening.{
  Opening, Chances, refused, opened, open_remote_terminal, insert_started, start_on_connection,
  take_route, fail, fail_route, settle_remote, remote_session, route_request,
}

module _ (c : TerminalSessionConfig) (user : User) (node_id id : Text) (size : TerminalSize)
    (checked_at : ℕ) (t : Chances) where
  abbrev request : RegisteredAgentConnection → TerminalSessionInsert
  request k = record {
    session_id = id;
    backend = remote k.channels;
    size = size;
    config = c;
    actor_email = user.email;
    node_id = some node_id;
    transport_status = some (terminal_transport_status k);
  }

  -- No session is added, and the last thing said is the error that the browser gets.
  abbrev pub IsRefused : AppState → AppState → Type 0
  IsRefused w w' =
      (w'.sessions ≡ w.sessions)
      × ((before : List Effect) × ((e : TerminalError) × (w'.effects
              ≡ before ++ sends (error (some id) e) ∷ [])))

  -- The session is in the registry, starting, on the agent's channel, which was told to start it.
  abbrev pub IsStarted : AppState → Loop → Type 0
  IsStarted w l =
      (k : RegisteredAgentConnection) × ((connection node_id w.agents ≡ some k)
        × ((get id l.app.sessions ≡ some (fresh (request k) t.token t.output_tx t.now))
            × ((before : List Effect) × (l.app.effects
                  ≡ before ++ commands k.channels (start_terminal id size) ∷ []))))

  abbrev IsDone : AppState → Opening → Type 0
  IsDone w (refused w') = IsRefused w w'
  IsDone w (opened _ l) = IsStarted w l

  -- Refused, or started by a user who may open a terminal on a node that is online with the direct
  -- route chosen.
  abbrev pub IsAnswered : AppState → Opening → Type 0
  IsAnswered w (refused w') = IsRefused w w'
  IsAnswered w (opened _ l) =
      (is_permitted user node_id terminal_open w ≡ true)
      × (node_is_online w.nodes node_id checked_at ≡ true)
      × ((target : Text) × (select_route (route_request node_id w) w.router
            ≡ ok (direct_agent target)))
      × IsStarted w l

  settle_remote-IsDone :
      (route : NodeRoute) (k : RegisteredAgentConnection) (w w' : AppState)
      (inserted : Result SessionLimitError ℕ)
      → (connection node_id w.agents ≡ some k)
      → (w'.effects ≡ w.effects ++ commands k.channels (start_terminal id size) ∷ [])
      → ((e : SessionLimitError) → inserted ≡ err e → w'.sessions ≡ w.sessions)
      → ((tx : ℕ)
          → inserted ≡ ok tx
          → get id w'.sessions ≡ some (fresh (request k) t.token t.output_tx t.now))
      → IsDone w (settle_remote user node_id id t route k inserted w')
  unfolding settle_remote fail send_error record_event emit
  settle_remote-IsDone route k w w' (err limit) found told same listed =
      (try_command-sessions k.channels t.is_closed id w' ∙ same limit refl, (_, (_, refl)))
  settle_remote-IsDone route k w w' (ok tx) found told same listed =
      (k, (found, (listed tx refl, (w.effects, told))))

  start_on_connection-IsDone :
      (route : NodeRoute) (k : RegisteredAgentConnection) (w : AppState)
      → connection node_id w.agents ≡ some k
      → IsDone w (start_on_connection c user node_id id size t route k w)
  unfolding start_on_connection insert_started emit insert_remote remote_session fail_route
      record_route_failed send_error record_event settle_remote
  start_on_connection-IsDone route k w found = elim (Bool-cases t.is_started) [
    | inr lost ↦ rw (lost, start_on_connection) (refl, (_, (_, refl)))
    | inl taken ↦
        rw (taken, start_on_connection)
          (settle_remote-IsDone route k w _ _ found refl
            (λ e. insert_backend-err (request k) t.token t.output_tx t.now w.sessions)
            (λ tx. insert_backend-ok (request k) t.token t.output_tx t.now w.sessions))
  ]

  take_route-IsDone :
      (route : NodeRoute) (w : AppState) → IsDone w (take_route c user node_id id size t route w)
  unfolding take_route fail fail_route record_route_failed send_error record_event emit
  take_route-IsDone (relay_node target relay) w = (refl, (_, (_, refl)))
  take_route-IsDone (direct_agent target) w = elim (Option-cases (connection node_id w.agents)) [
    | inl gone ↦ rw (gone, take_route) (refl, (_, (_, refl)))
    | inr (k, found) ↦
        rw (found, take_route) (start_on_connection-IsDone (direct_agent target) k w found)
  ]

  IsDone-IsAnswered :
      (w : AppState) (o : Opening)
      → is_permitted user node_id terminal_open w ≡ true
      → node_is_online w.nodes node_id checked_at ≡ true
      → (target : Text) × (select_route (route_request node_id w) w.router
          ≡ ok (direct_agent target))
      → IsDone w o
      → IsAnswered w o
  IsDone-IsAnswered w (refused _) allowed online chosen h = h
  IsDone-IsAnswered w (opened _ _) allowed online chosen h = (allowed, online, chosen, h)

  take_route-IsAnswered :
      (w : AppState) (route : NodeRoute)
      → is_permitted user node_id terminal_open w ≡ true
      → node_is_online w.nodes node_id checked_at ≡ true
      → select_route (route_request node_id w) w.router ≡ ok route
      → IsAnswered w (
          take_route c user node_id id size t route
            (record_route_selected user.email node_id id (route_id route) w))
  unfolding take_route fail fail_route record_route_selected record_route_failed send_error
      record_event emit
  take_route-IsAnswered w (relay_node target relay) allowed online chosen = (refl, (_, (_, refl)))
  take_route-IsAnswered w (direct_agent target) allowed online chosen =
      IsDone-IsAnswered w _ allowed online (target, chosen)
        (take_route-IsDone (direct_agent target) _)

  -- A request for a terminal on a node is refused, and then no session is added and the last effect
  -- is an error for the browser; or it leads to a loop, and then the user may open terminals on the
  -- node, the node is online, its direct route was chosen, its agent is connected and was told to
  -- start the terminal, and the registry has the new session under that user, node and channel.
  pub open_remote_terminal-IsAnswered :
      (w : AppState) → IsAnswered w (open_remote_terminal c user node_id id size checked_at t w)
  unfolding open_remote_terminal fail record_route_failed send_error record_event emit
  open_remote_terminal-IsAnswered w =
      elim (Bool-cases (is_permitted user node_id terminal_open w)) [
        | inr forbidden ↦ rw (forbidden, open_remote_terminal) (refl, (_, (_, refl)))
        | inl allowed ↦ elim (Bool-cases (node_is_online w.nodes node_id checked_at)) [
          | inr offline ↦ rw (allowed, offline, open_remote_terminal) (refl, (_, (_, refl)))
          | inl online ↦ elim (Result-cases (select_route (route_request node_id w) w.router)) [
            | inr (e, nowhere) ↦
                rw (allowed, online, nowhere, open_remote_terminal) (refl, (_, (_, refl)))
            | inl (route, chosen) ↦
                let answered = take_route-IsAnswered w route allowed online chosen in
                rw (allowed, online, chosen, open_remote_terminal) answered
          ]
        ]
      ]
