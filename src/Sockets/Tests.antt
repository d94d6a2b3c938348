-- ===== src/Sockets/Tests.antt =====
-- Two terminals of an administrator, one on the host and one on a node, and the theorems at them.
use sunbolt.Base.{
  ℕ, ◌≢◌, ap, arith, text_eq, nat_eq, if◌then◌else◌, Option, ◌++◌, ◌≡◌, ◌⊎◌, ◌↔◌, refl, true, false,
  List, [], ◌∷◌, Text, text, some, none, text_keys, Result, ok, err,
}
use sunbolt.Base.Dict.{lookup}
use sunbolt.Terminal.{detached}
use sunbolt.Protocol.{
  TerminalSize, TerminalClientMessage, close_message, start_message, terminal_output,
  web_socket_tls_tcp443,
}
use sunbolt.Registry.{TerminalSessionConfig, TrackedTerminalSession, empty, remote, get, remote}
use sunbolt.Registry.Calls.{run}
use sunbolt.Registry.Bounded.{IsBounded, run-IsBounded}
use sunbolt.Registry.Reattach.{Entitled}
use sunbolt.Auth.{User, admin}
use sunbolt.Auth.Rbac.{RbacStore}
use sunbolt.Nodes.{NodeRegistry, online}
use sunbolt.Agents.{AgentConnections}
use sunbolt.Sockets.{AppState, Message, text_frame}
use sunbolt.Sockets.Calls.{
  SocketCall, connects, reads_pty, steps_on_node, terminates_by_request, socket_run,
}
use sunbolt.Sockets.Loops.{Loop}
use sunbolt.Sockets.Loops.Remote.{
  Attachment, receives_event, browser_leaves_remote, receives_remote_frame, remote_loop,
}
use sunbolt.Sockets.Loops.Local.{ticks, browser_leaves, local_loop}
use sunbolt.Sockets.Output.{reads}
use sunbolt.Sockets.Isolation.{reached, local_loop-others}
use sunbolt.Sockets.Frames.{handle_remote_client_frame}
use sunbolt.Sockets.Opening.{Chances, open_remote_terminal}
use sunbolt.Sockets.Attached.{handle_terminal_reattach}
use sunbolt.Sockets.Bounded.Runs.{socket_run-IsBounded}
use sunbolt.Sockets.Ending.{IsSettled, loops-IsSettled}
use sunbolt.Sockets.Commands.{Adds, IsOwn, handle_remote_client_frame-IsOwn}
use sunbolt.Sockets.Access.{IsEnded, IsDenied, terminate_terminal_session_lem}
use sunbolt.Sockets.Reattaching.{IsAttached, IsOpen, handle_terminal_reattach_iff}
use sunbolt.Sockets.Admission.{IsAnswered, open_remote_terminal-IsAnswered}

abbrev ann : User
ann = record { id = 1; email = text "ann@b.c"; role = admin }

abbrev rack : Text
rack = text "rack-1"

abbrev term : Text
term = text "local-1"

abbrev size : TerminalSize
size = record { cols = 80; rows = 24 }

abbrev limits : TerminalSessionConfig
limits = record {
  max_sessions = 4;
  max_sessions_per_user = 2;
  max_sessions_per_node = 2;
  idle_timeout = 60;
  max_duration = 900;
  disconnect_grace = 5;
}

-- One node, heard of at the time 5, and its agent on channel 9.
abbrev nodes : NodeRegistry
nodes = record {
  tokens_by_hash = [];
  nodes =
      record {
        id = 1;
        node_id = rack;
        display_name = rack;
        hostname = rack;
        os = text "linux";
        architecture = text "x86";
        agent_version = text "1";
        status = online;
      }
      ∷ [];
  credentials = [];
  heartbeats = record { node_id = 1; status = online; received_at = 5 } ∷ [];
  next_token_id = 1;
  next_node_id = 2;
}

abbrev agents : AgentConnections
agents =
    (
      rack,
      record {
        channels = 9;
        transport_id = text "t";
        transport_kind = web_socket_tls_tcp443;
        degraded_reason = none;
        next_message_id = none;
      },
    )
    ∷ []

abbrev rbac : RbacStore
rbac = record {
  users_by_id = [];
  workspaces_by_id = [];
  roles_by_id = [];
  role_permissions_by_role_id = [];
  workspace_members_by_workspace_id = [];
  workspace_nodes_by_node_id = [];
  next_role_id = 1;
  next_workspace_id = 1;
  poisoned = false;
}

abbrev start : AppState
start = record {
  sessions = empty;
  nodes = nodes;
  auth = rbac;
  router = [];
  agents = agents;
  effects = [];
}

-- A reading of frames: `n` asks for a terminal on the node, `h` for one on the host, and any other text
-- to close the terminal.
abbrev reading : Text → Result Text TerminalClientMessage
reading [] = err (text "empty")
reading (b ∷ _) =
    if nat_eq b b'n'
    then ok (start_message (some rack) size)
    else if nat_eq b b'h'
    then ok (start_message none size)
    else ok (close_message term)

abbrev first : Text → Option Message
first t = some (text_frame t)

-- Every spawned shell gets this number.
abbrev spawn : TerminalSize → Result Text ℕ
spawn _ = ok 4

abbrev chances : Chances
chances = record {
  token = text "secret";
  output_tx = 3;
  now = 6;
  is_started = true;
  is_closed = true;
}

abbrev socket : Attachment
socket = record { user = ann; node_id = rack; command_tx = 9; output_tx = 3; status = none }

abbrev calls : List SocketCall
calls =
    connects ann (first (text "n")) 1 spawn 6 chances true
    ∷ connects ann (first (text "h")) 2 spawn 6 chances true
    ∷ connects ann (first (text "h")) 3 spawn 6 chances true
    ∷ reads_pty 3 (text "local-2") (reads (text "hi"))
    ∷ steps_on_node socket term (receives_event (terminal_output term (text "hi")) true) false false
    ∷ terminates_by_request ann term true
    ∷ []

empty-IsBounded : IsBounded limits empty
empty-IsBounded = unfold run in run-IsBounded limits []

socket_run-IsBounded_example : IsBounded limits (socket_run reading limits calls start).sessions
socket_run-IsBounded_example = socket_run-IsBounded reading limits calls start empty-IsBounded

abbrev tracked : TrackedTerminalSession
tracked = record {
  backend = remote 9;
  output_tx = 3;
  replay = [];
  next_output_sequence = 1;
  reconnect_token = text "secret";
  state = detached;
  last_activity = 6;
  created_at = 6;
  size = size;
  actor_email = text "ann@b.c";
  node_id = some rack;
  transport_status = none;
}

abbrev parked : AppState
parked = record start {
  sessions = record { poisoned = false; sessions = (term, tracked) ∷ []; closed = [] };
}

abbrev loop : Loop
loop = record { opened = true; failed = false; app = parked }

loops-IsSettled_example :
    IsSettled term
      (local_loop reading limits ann.email 4 term (ticks 7 7 ∷ [] ++ browser_leaves ∷ []) loop)
    × IsSettled term (
        remote_loop reading socket term true
          (receives_remote_frame (text_frame (text "x")) true ∷ [] ++ browser_leaves_remote ∷ [])
          loop)
loops-IsSettled_example =
    loops-IsSettled reading term limits ann.email 4 (ticks 7 7 ∷ []) [] loop socket true
      (receives_remote_frame (text_frame (text "x")) true ∷ []) [] loop

handle_remote_client_frame-IsOwn_example :
    Adds
      (IsOwn ann 9 term parked)
      parked.effects
      (handle_remote_client_frame reading ann ann.email 9 term true
        (text_frame (text "x"))
        parked).1.effects
handle_remote_client_frame-IsOwn_example =
    handle_remote_client_frame-IsOwn reading ann 9 term true (text_frame (text "x")) parked

open_remote_terminal-IsAnswered_example :
    IsAnswered limits ann rack term size 6 chances start
      (open_remote_terminal limits ann rack term size 6 chances start)
open_remote_terminal-IsAnswered_example =
    open_remote_terminal-IsAnswered limits ann rack term size 6 chances start

terminate_terminal_session_lem_example :
    IsEnded ann term true parked ⊎ IsDenied ann term true parked
terminate_terminal_session_lem_example = terminate_terminal_session_lem ann term true parked

finds : get term parked.sessions ≡ some tracked
unfolding lookup
finds = refl

handle_terminal_reattach_iff_example :
    IsAttached (handle_terminal_reattach ann term (text "secret") 7 (text "new") 8 parked)
    ↔ (Entitled (text "secret") ann.email tracked × IsOpen ann 7 parked tracked.node_id)
handle_terminal_reattach_iff_example =
    handle_terminal_reattach_iff ann term (text "secret") 7 parked (text "new") 8 tracked finds

apart : term ≢ text "local-9"
apart e = absurd (ground (arith, ap (text_eq term) e))

local_loop-others_example :
    lookup
      (text "local-9")
      (reached (
        local_loop reading limits ann.email 4 term
          (ticks 7 7 ∷ browser_leaves ∷ [])
          loop)).sessions.sessions
    ≡ lookup (text "local-9") loop.app.sessions.sessions
local_loop-others_example =
    local_loop-others term (text "local-9") apart reading limits ann.email 4
      (ticks 7 7 ∷ browser_leaves ∷ []) loop
