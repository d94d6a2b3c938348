-- ===== src/Routing/Tests.antt =====
-- A node whose direct route fails.
use sunbolt.Base.{◌≡◌, refl, true, List, [], ◌∷◌, Text, text, ok}
use sunbolt.Base.Dict.{lookup, insert, remove, modify, contains}
use sunbolt.Routing.{
  RouteRequest, direct, direct_agent, relay_node, unhealthy, route_health, select_route, health_of,
  record_failure, record_success, endpoint,
}
use sunbolt.Routing.History.{
  Report, failed, succeeded, report, after_reports, failures_in_a_row, Selects,
  route_health-reports, select_route-Selects,
}

abbrev node : Text
node = text "node-1"

abbrev reports : List Report
reports =
    failed (direct_agent node)
    ∷ failed (direct_agent node)
    ∷ failed (direct_agent node)
    ∷ succeeded (direct_agent node)
    ∷ []

abbrev request : RouteRequest
request = record {
  target_node_id = node;
  direct_agent_connected = true;
  relay_candidates = text "relay-1" ∷ [];
}

falls_back : select_route request (after_reports reports) ≡ ok (relay_node node (text "relay-1"))
unfolding select_route after_reports report record_failure record_success endpoint route_health
    health_of lookup insert remove modify contains
falls_back = refl

route_health-reports_example : route_health (direct node) (after_reports reports) ≡ unhealthy
unfolding failures_in_a_row health_of endpoint
route_health-reports_example = route_health-reports (direct node) reports

select_route-Selects_example :
    Selects request (after_reports reports) (select_route request (after_reports reports))
select_route-Selects_example = select_route-Selects request (after_reports reports)
