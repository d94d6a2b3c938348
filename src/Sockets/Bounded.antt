-- ===== src/Sockets/Bounded.antt =====
-- Opening a terminal keeps the session table within its limits.
pub mod Attached
pub mod Runs
use sunbolt.Base.{
  ℕ, Bool, true, false, none, some, Text, Result, ok, err, Bool-cases, Option-cases, Result-cases,
  inl, inr,
}
use sunbolt.Protocol.{TerminalSize, close_terminal}
use sunbolt.Registry.{
  TerminalSessionConfig, SessionLimitError, local_pty, remote, insert_local, insert_remote, detach,
}
use sunbolt.Registry.Calls.{
  inserts, sets_state, touches, resizes, outputs, remembers, terminates, forgets, step,
}
use sunbolt.Registry.Bounded.{IsBounded, step-IsBounded}
use sunbolt.Auth.{User}
use sunbolt.Sockets.{
  AppState, emit, on_sessions, send_error, record_event, record_route_failed, record_route_selected,
  is_permitted,
}
use sunbolt.Terminal.{active}
use sunbolt.Routing.{NodeRoute, direct_agent, relay_node, select_route}
use sunbolt.Agents.{RegisteredAgentConnection, terminal_transport_status, connection}
use sunbolt.Nodes.{node_is_online}
use sunbolt.Auth.Rbac.{terminal_open}
use sunbolt.Sockets.Calls.{after_local}
use sunbolt.Sockets.Keeping.{try_command-keeps}
use sunbolt.Sockets.Keeping.Remote.{IsKeptByAll}
use sunbolt.Sockets.Opening.{
  open_remote_terminal, insert_started, start_on_connection, take_route, fail, fail_route,
  state_after, Chances, settle_remote, remote_session, route_request,
}
use sunbolt.Sockets.Local.{open_local_terminal, settle_local}

module _ (c : TerminalSessionConfig) where
  pub methods-IsKept : IsKeptByAll (IsBounded c)
  methods-IsKept = record {
    at = λ id. record {
      sets = λ state r h. unfold step in step-IsBounded c (sets_state id state) r h;
      detaches = λ r h.
          unfold detach step in step-IsBounded c (sets_state id sunbolt.Terminal.detached) r h;
      touches = λ now r h. unfold step in step-IsBounded c (touches id now) r h;
      resizes = λ size r h. unfold step in step-IsBounded c (resizes id size) r h;
      forgets = λ r h. unfold step in step-IsBounded c (forgets id) r h;
      terminates = λ r h. unfold step in step-IsBounded c (terminates id) r h;
    };
    outputs = λ id payload r h. unfold step in step-IsBounded c (outputs id payload) r h;
    remembers = λ message r h. unfold step in step-IsBounded c (remembers message) r h;
  }

  fail-IsBounded :
      (actor_email id note reason : Text) (w : AppState)
      → IsBounded c w.sessions
      → IsBounded c (state_after (fail actor_email id note reason w)).sessions
  unfolding state_after fail send_error record_event emit
  fail-IsBounded actor_email id note reason w h = h

  settle_local-IsBounded :
      (user : User) (id : Text) (size : TerminalSize) (session : ℕ) (is_sent : Bool)
      (inserted : Result SessionLimitError ℕ) (w : AppState)
      → IsBounded c w.sessions
      → IsBounded c (after_local (settle_local user id size session is_sent inserted w)).sessions
  unfolding after_local settle_local send_error record_event on_sessions emit
  settle_local-IsBounded user id size session is_sent (err limit) w h = h
  settle_local-IsBounded user id size session false (ok output_tx) w h = h
  settle_local-IsBounded user id size session true (ok output_tx) w h =
      unfold step in step-IsBounded c (sets_state id active) w.sessions h

  pub open_local_terminal-IsBounded :
      (user : User) (id : Text) (size : TerminalSize) (spawned : Result Text ℕ) (t : Chances)
      (is_sent : Bool) (w : AppState)
      → IsBounded c w.sessions
      → IsBounded c (after_local (open_local_terminal c user id size spawned t is_sent w)).sessions
  unfolding open_local_terminal
  open_local_terminal-IsBounded user id size (err e) t is_sent w h =
      unfold after_local send_error record_event emit in h
  open_local_terminal-IsBounded user id size (ok session) t is_sent w h =
      settle_local-IsBounded user id size session is_sent _ _ (
        unfold insert_local step in
        step-IsBounded c
          (inserts
            (record {
              session_id = id;
              backend = local_pty session;
              size = size;
              config = c;
              actor_email = user.email;
              node_id = none;
              transport_status = none;
            })
            t.token t.output_tx t.now)
          w.sessions h)

  settle_remote-IsBounded :
      (user : User) (node_id id : Text) (t : Chances) (route : NodeRoute)
      (k : RegisteredAgentConnection) (inserted : Result SessionLimitError ℕ) (w : AppState)
      → IsBounded c w.sessions
      → IsBounded c (state_after (settle_remote user node_id id t route k inserted w)).sessions
  unfolding settle_remote
  settle_remote-IsBounded user node_id id t route k (err limit) w h =
      fail-IsBounded user.email id _ _ _ (
        try_command-keeps id (IsBounded c) (methods-IsKept.at id) k.channels t.is_closed
          (close_terminal id) w h)
  settle_remote-IsBounded user node_id id t route k (ok output_tx) w h = unfold state_after in h

  start_on_connection-IsBounded :
      (user : User) (node_id id : Text) (size : TerminalSize) (t : Chances) (route : NodeRoute)
      (k : RegisteredAgentConnection) (w : AppState)
      → IsBounded c w.sessions
      → IsBounded c (state_after (start_on_connection c user node_id id size t route k w)).sessions
  unfolding start_on_connection insert_started emit
  start_on_connection-IsBounded user node_id id size t route k w h =
      elim (Bool-cases t.is_started) [
        | inl taken ↦
            rw (taken, start_on_connection)
              (settle_remote-IsBounded user node_id id (record t { is_started = true }) route k _ _
                (unfold insert_remote step remote_session in
                  step-IsBounded c
                    (inserts
                      (record {
                        session_id = id;
                        backend = remote k.channels;
                        size = size;
                        config = c;
                        actor_email = user.email;
                        node_id = some node_id;
                        transport_status = some (terminal_transport_status k);
                      })
                      t.token t.output_tx t.now)
                    w.sessions h))
        | inr lost ↦
            rw (lost, start_on_connection)
              (unfold state_after fail_route send_error record_route_failed record_event in h)
      ]

  take_route-IsBounded :
      (user : User) (node_id id : Text) (size : TerminalSize) (t : Chances) (route : NodeRoute)
      (w : AppState)
      → IsBounded c w.sessions
      → IsBounded c (state_after (take_route c user node_id id size t route w)).sessions
  unfolding take_route
  take_route-IsBounded user node_id id size t (relay_node target relay) w h =
      fail-IsBounded user.email id _ _ _
        (unfold fail_route record_route_failed record_event emit in h)
  take_route-IsBounded user node_id id size t (direct_agent target) w h =
      elim (Option-cases (connection node_id w.agents)) [
        | inl gone ↦
            rw (gone, take_route)
              (fail-IsBounded user.email id _ _ _
                (unfold fail_route record_route_failed record_event emit in h))
        | inr (k, found) ↦
            rw (found, take_route)
              (start_on_connection-IsBounded user node_id id size t (direct_agent target) k w h)
      ]

  pub open_remote_terminal-IsBounded :
      (user : User) (node_id id : Text) (size : TerminalSize) (checked_at : ℕ) (t : Chances)
      (w : AppState)
      → IsBounded c w.sessions
      → IsBounded c
          (state_after (open_remote_terminal c user node_id id size checked_at t w)).sessions
  unfolding open_remote_terminal
  open_remote_terminal-IsBounded user node_id id size checked_at t w h =
      elim (Bool-cases (is_permitted user node_id terminal_open w)) [
        | inr refused ↦
            rw (refused, open_remote_terminal)
              (unfold state_after send_error record_event emit in h)
        | inl allowed ↦ elim (Bool-cases (node_is_online w.nodes node_id checked_at)) [
          | inr offline ↦
              rw (allowed, offline, open_remote_terminal) (fail-IsBounded user.email id _ _ w h)
          | inl online ↦ elim (Result-cases (select_route (route_request node_id w) w.router)) [
            | inl (route, chosen) ↦
                rw (allowed, online, chosen, open_remote_terminal)
                  (take_route-IsBounded user node_id id size t route _
                    (unfold record_route_selected record_event emit in h))
            | inr (e, none') ↦
                rw (allowed, online, none', open_remote_terminal)
                  (fail-IsBounded user.email id _ _ _
                    (unfold record_route_failed record_event emit in h))
          ]
        ]
      ]
