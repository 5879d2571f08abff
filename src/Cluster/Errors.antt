-- ===== src/Cluster/Errors.antt =====
-- The errors of a creation, and their texts, in which CreateContainer looks for its patterns.
use classicswarm.Prelude.{Bool, false, ◌++◌}
use classicswarm.Text.{Str, codes}
use classicswarm.Filter.Labels.{shown}
use classicswarm.Filter.Batch.{error_text}
use classicswarm.Filter.Outcome.{
  Error, no_healthy_node, no_free_slots, no_node_available, no_resources, not_supported,
  bad_expression, unsatisfied_affinity, unsatisfied_constraint, unsatisfied_whitelist,
  port_unavailable, exposed_port_unavailable, dependencies, conditions,
}
use classicswarm.Engine.{ApiError}

pub data Failure : Type 0 where
  name_taken : (name : Str) → Failure
  gone not_reported_back : Failure
  unplaced : Error → Failure
  from_api : ApiError → Failure

-- Error() of the errors of the filters, the strategies and the scheduler.
unfoldable pub describe : Error → Str
unfolding shown error_text
describe no_healthy_node = codes "No healthy node available in the cluster"
describe no_free_slots = codes "No node with enough open slots available in the cluster"
describe no_node_available = codes "No nodes available in the cluster"
describe no_resources = codes "no resources available to schedule container"
describe not_supported = codes "filter not supported"
describe (bad_expression e) = error_text e
describe (unsatisfied_affinity e) =
    codes "unable to find a node that satisfies the affinity " ++ shown e
describe (unsatisfied_constraint e) =
    codes "unable to find a node that satisfies the constraint " ++ shown e
describe (unsatisfied_whitelist e) =
    codes "unable to find a node that satisfies the whitelist " ++ shown e
describe (port_unavailable p) =
    codes "unable to find a node with port " ++ (p ++ codes " available")
describe (exposed_port_unavailable p) =
    codes "unable to find a node with port " ++ (p ++ codes " available in the Host mode")
describe (dependencies d) = codes "Unable to find a node fulfilling all dependencies: " ++ d
describe (conditions s) =
    codes "Unable to find a node that satisfies the following conditions " ++ s

unfoldable pub text_of : Failure → Str
unfolding describe
text_of (name_taken name) =
    codes "Conflict: The name "
    ++ (name
        ++ (codes
              " is already assigned. You have to delete (or rename) that container to be able to assign "
            ++ (name ++ codes " to a container again.")))
text_of gone = codes "error creating container"
text_of not_reported_back = codes "Container created but refresh didn't report it back"
text_of (unplaced e) = describe e
text_of (from_api x) = x.text

-- client.IsErrNotFound
unfoldable pub is_err_not_found : Failure → Bool
is_err_not_found (from_api x) = x.not_found
is_err_not_found (name_taken name) = false
is_err_not_found gone = false
is_err_not_found not_reported_back = false
is_err_not_found (unplaced e) = false
