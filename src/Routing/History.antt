-- ===== src/Routing/History.antt =====
-- The health of an endpoint is a function of what was reported of it, and routes avoid exactly the
-- endpoints with three failures in a row.
use sunbolt.Base.{
  ℕ, zero, suc, ◌+◌, ◌≡◌, refl, ◌⊎◌, inl, inr, Bool, true, false, not, Text, List, [], ◌∷◌, none,
  some, arith, if◌then◌else◌, min, find, Bool-cases, Option-cases, All, Result, ◌&&◌, ok, err,
}
use sunbolt.Base.Dict.{lookup, contains, lookup-insert, lookup-modify}
use sunbolt.Routing.{
  Router, RouteError, RouteEndpoint, NodeRoute, RouteRequest, direct, relay, direct_agent,
  relay_node, no_route, endpoint, endpoint_eq, endpoint_eq_iff, endpoint_keys, health_of,
  RouteHealth, healthy, degraded, unhealthy, route_health, record_success, record_failure,
  select_route, is_unhealthy, u8_max,
}

pub data Report : Type 0 where
  succeeded failed : NodeRoute → Report

unfoldable pub report : Report → Router → Router
report (succeeded route) r = record_success route r
report (failed route) r = record_failure route r

-- Reports in the order of their arrival, the last one first.
unfoldable pub after_reports : List Report → Router
after_reports [] = []
after_reports (x ∷ xs) = report x (after_reports xs)

abbrev pub about : Report → NodeRoute
about (succeeded route) = route
about (failed route) = route

-- The failures of an endpoint since its last success.
unfoldable pub failures_in_a_row : RouteEndpoint → List Report → ℕ
failures_in_a_row e [] = 0
failures_in_a_row e (succeeded route ∷ xs) =
    let rest = failures_in_a_row e xs in if endpoint_eq (endpoint route) e then 0 else rest
failures_in_a_row e (failed route ∷ xs) =
    let rest = failures_in_a_row e xs in if endpoint_eq (endpoint route) e then suc rest else rest

abbrev count_of : RouteEndpoint → Router → ℕ
count_of e r = elim (lookup e r) [ none ↦ 0 | some n ↦ n ]

count_of-reports :
    (e : RouteEndpoint) (xs : List Report)
    → count_of e (after_reports xs) ≡ min (failures_in_a_row e xs) u8_max
unfolding after_reports report failures_in_a_row record_success record_failure contains
count_of-reports e [] = unfold lookup in omega arith
count_of-reports e (succeeded route ∷ xs) =
    ground (arith, count_of-reports e xs, lookup-insert (endpoint route) e 0 (after_reports xs))
count_of-reports e (failed route ∷ xs) = ground (
  arith,
  count_of-reports e xs,
  lookup-insert (endpoint route) e 1 (after_reports xs),
  lookup-modify (endpoint route) e (λ failures. min (failures + 1) u8_max) (after_reports xs),
  endpoint_eq_iff (endpoint route) e,
)

-- What the tracked health of an endpoint promises after so many failures in a row.
abbrev pub promised : ℕ → RouteHealth
promised zero = healthy
promised (suc zero) = degraded
promised (suc (suc zero)) = degraded
promised (suc (suc (suc _))) = unhealthy

health_of-promised : (n : ℕ) → health_of (min n u8_max) ≡ promised n
unfolding health_of
health_of-promised zero = ground arith
health_of-promised (suc zero) = ground arith
health_of-promised (suc (suc zero)) = ground arith
health_of-promised (suc (suc (suc n))) = ground arith

-- After any reports an endpoint is healthy if nothing has failed on it since its last success,
-- unhealthy from the third failure in a row on, and degraded in between.
pub route_health-reports :
    (e : RouteEndpoint) (xs : List Report)
    → route_health e (after_reports xs) ≡ promised (failures_in_a_row e xs)
unfolding route_health health_of
route_health-reports e xs =
    ground (arith, count_of-reports e xs, health_of-promised (failures_in_a_row e xs))

abbrev pub usable : RouteEndpoint → Router → Bool
usable e r = not (is_unhealthy (route_health e r))

abbrev pub direct_usable : RouteRequest → Router → Bool
direct_usable q r = q.direct_agent_connected && usable (direct q.target_node_id) r

-- The first usable relay, after relays that are not.
abbrev pub FirstUsable : Text → List Text → Router → Type 0
FirstUsable node [] r = ⊥
FirstUsable node (x ∷ xs) r =
    ((x ≡ node) × (usable (relay x) r ≡ true))
    ⊎ ((usable (relay x) r ≡ false) × FirstUsable node xs r)

-- What a selection is allowed to be: the direct agent if it is connected and usable; else the first
-- usable relay; else no route, when every relay is unhealthy.
abbrev pub Selects : RouteRequest → Router → Result RouteError NodeRoute → Type 0
Selects q r (ok (direct_agent target)) = (target ≡ q.target_node_id) × (direct_usable q r ≡ true)
Selects q r (ok (relay_node target node)) =
    (target ≡ q.target_node_id)
    × (direct_usable q r ≡ false)
    × FirstUsable node q.relay_candidates r
Selects q r (err _) =
    (direct_usable q r ≡ false) × All (λ node. usable (relay node) r ≡ false) q.relay_candidates

first_found :
    (r : Router) (xs : List Text) {node : Text}
    → find (λ x. usable (relay x) r) xs ≡ some node
    → FirstUsable node xs r
first_found r [] e = cc
first_found r (x ∷ xs) e = elim (Bool-cases (usable (relay x) r)) [
  | inl good ↦ inl (ground arith, good)
  | inr bad ↦ inr (bad, first_found r xs (ground arith))
]

nobody_found :
    (r : Router) (xs : List Text)
    → find (λ x. usable (relay x) r) xs ≡ none
    → All (λ x. usable (relay x) r ≡ false) xs
nobody_found r [] e = tt
nobody_found r (x ∷ xs) e = ground (arith, nobody_found r xs)

select_direct :
    (q : RouteRequest) (r : Router)
    → direct_usable q r ≡ true
    → select_route q r ≡ ok (direct_agent q.target_node_id)
unfolding select_route
select_direct q r good = ground arith

select_nobody :
    (q : RouteRequest) (r : Router)
    → direct_usable q r ≡ false
    → find (λ x. usable (relay x) r) q.relay_candidates ≡ none
    → select_route q r ≡ err no_route
unfolding select_route
select_nobody q r bad nobody = ground arith

select_relay :
    (q : RouteRequest) (r : Router) (node_id : Text)
    → direct_usable q r ≡ false
    → find (λ x. usable (relay x) r) q.relay_candidates ≡ some node_id
    → select_route q r ≡ ok (relay_node q.target_node_id node_id)
unfolding select_route
select_relay q r node_id bad found = ground arith

-- For any request and any tracked health, the answer of `select_route` is the allowed one: the direct
-- agent if it is connected and not unhealthy; else the first candidate relay that is not unhealthy;
-- else `NoRoute`, and then every candidate relay is unhealthy.
pub select_route-Selects : (q : RouteRequest) (r : Router) → Selects q r (select_route q r)
select_route-Selects q r = elim (Bool-cases (direct_usable q r)) [
  | inl good ↦ rw (select_direct q r good) (refl, good)
  | inr bad ↦ elim (Option-cases (find (λ x. usable (relay x) r) q.relay_candidates)) [
    | inl nobody ↦ rw (select_nobody q r bad nobody) (bad, nobody_found r q.relay_candidates nobody)
    | inr (node_id, found) ↦
        rw (select_relay q r node_id bad found) (refl, bad, first_found r q.relay_candidates found)
  ]
]
