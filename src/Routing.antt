-- ===== src/Routing.antt =====
-- crates/sunbolt-control/src/routing.rs: the choice of a route to a node, by the tracked health of
-- each endpoint. The health table's lock recovers from poisoning, so each call is one step.
pub mod History
mod Tests
use sunbolt.Base.{
  ℕ, ◌+◌, ◌++◌, Bool, true, false, ◌&&◌, not, none, some, List, Text, text, text_eq, text_eq_sound,
  if◌then◌else◌, leb, nat_eq, min, Result, ok, err, find, Key, ◌≡◌, ◌↔◌, ap, arith, subst,
  text_eq_refl,
}
use sunbolt.Base.Dict.{Dict, lookup, insert, modify, contains}

pub record RouteRequest : Type 0 where
  pub target_node_id : Text
  pub direct_agent_connected : Bool
  pub relay_candidates : List Text

pub data NodeRoute : Type 0 where
  direct_agent : Text → NodeRoute
  -- the target, then the relay
  relay_node : Text → Text → NodeRoute

pub data RouteEndpoint : Type 0 where
  direct : Text → RouteEndpoint
  relay : Text → RouteEndpoint

pub data RouteHealth : Type 0 where
  healthy degraded unhealthy : RouteHealth

pub data RouteError : Type 0 where
  no_route : RouteError

abbrev pub endpoint_eq : RouteEndpoint → RouteEndpoint → Bool
endpoint_eq (direct a) (direct b) = text_eq a b
endpoint_eq (relay a) (relay b) = text_eq a b
endpoint_eq _ _ = false

endpoint_sound : (a b : RouteEndpoint) → endpoint_eq a b ≡ true → a ≡ b
endpoint_sound (direct a) (direct b) h = ap direct (text_eq_sound a b h)
endpoint_sound (direct a) (relay b) h = cc
endpoint_sound (relay a) (direct b) h = cc
endpoint_sound (relay a) (relay b) h = ap relay (text_eq_sound a b h)

endpoint_eq_refl : (a : RouteEndpoint) → endpoint_eq a a ≡ true
endpoint_eq_refl (direct a) = text_eq_refl a
endpoint_eq_refl (relay a) = text_eq_refl a

pub endpoint_eq_iff : (a b : RouteEndpoint) → (endpoint_eq a b ≡ true) ↔ (a ≡ b)
endpoint_eq_iff a b =
    (endpoint_sound a b, λ e. subst (λ c. endpoint_eq a c ≡ true) e (endpoint_eq_refl a))

instance abbrev pub endpoint_keys : Key RouteEndpoint
endpoint_keys = record { same = endpoint_eq; same_iff = endpoint_eq_iff }

-- `NodeRoute::endpoint`
pub endpoint : NodeRoute → RouteEndpoint
endpoint (direct_agent target) = direct target
endpoint (relay_node target node) = relay node

-- `NodeRoute::route_id`
pub route_id : NodeRoute → Text
route_id (direct_agent target) = text "direct-agent:" ++ target
route_id (relay_node target node) = text "relay:" ++ (node ++ (text ":" ++ target))

-- `RouteHealthRecord`: its `u8` of consecutive failures.
abbrev pub u8_max : ℕ
u8_max = 255

-- `RouteHealthRecord::UNHEALTHY_AFTER`
abbrev pub unhealthy_after : ℕ
unhealthy_after = 3

-- `RouteHealthRecord::health`
pub health_of : ℕ → RouteHealth
health_of failures =
    if nat_eq failures 0
    then healthy
    else if leb unhealthy_after failures
    then unhealthy
    else degraded

-- `InMemoryNodeRouter`
abbrev pub Router : Type 0
Router = Dict RouteEndpoint ℕ

pub route_health : RouteEndpoint → Router → RouteHealth
route_health e r = elim (lookup e r) [ none ↦ healthy | some failures ↦ health_of failures ]

pub record_success : NodeRoute → Router → Router
record_success route r = insert (endpoint route) 0 r

pub record_failure : NodeRoute → Router → Router
record_failure route r =
    if contains (endpoint route) r
    then modify (endpoint route) (λ failures. min (failures + 1) u8_max) r
    else insert (endpoint route) 1 r

abbrev pub is_unhealthy : RouteHealth → Bool
is_unhealthy unhealthy = true
is_unhealthy _ = false

pub select_route : RouteRequest → Router → Result RouteError NodeRoute
select_route request r =
    if request.direct_agent_connected
      && not (is_unhealthy (route_health (direct request.target_node_id) r))
    then ok (direct_agent request.target_node_id)
    else elim (find (λ node. not (is_unhealthy (route_health (relay node) r)))
        request.relay_candidates) [
          | none ↦ err no_route
          | some node ↦ ok (relay_node request.target_node_id node)
        ]
