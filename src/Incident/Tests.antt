-- ===== src/Incident/Tests.antt =====
-- Incidents of concrete runs: a completed read, and a write that a lost worker left behind.
use google_connector_app.Prelude.{◌≤◌, ◌<◌, ◌≡◌, ◌≢◌, refl, true, false, none, some, List, [], ◌∷◌}
use google_connector_app.Json.{null, bool, dict, field, end}
use google_connector_app.Runs.{Step, StepStatus}
use google_connector_app.Incident.{completion_from_steps, build_incident}
use google_connector_app.Incident.Weights.{completion-IsOrdered}
use google_connector_app.Incident.Integrity.{integrity-lost_write}

abbrev read_step : Step
read_step = record {
  id = 1;
  run_id = 7;
  step_key = "s1";
  sequence_no = 1;
  title = "Read the mail";
  service = "gmail";
  operation = "search";
  dependencies = [];
  read_only = true;
  weight = 10000;
  status = StepStatus.completed;
  input_data = null;
  output_data = null;
  attempt_count = 1;
  max_attempts = 3;
  error_category = none;
  error_message = none;
}

abbrev lost_step : Step
lost_step = record read_step {
  id = 2;
  read_only = false;
  status = StepStatus.failed;
  error_category = some "worker_reconciliation";
}

abbrev rogue_step : Step
rogue_step = record read_step {
  id = 3;
  read_only = false;
  input_data =
      dict (field "semantic_authorization" (dict (field "authorized" (bool false) end)) end);
}

abbrev steps : List Step
steps = read_step ∷ lost_step ∷ []

completion-IsOrdered_example :
    ((completion_from_steps steps).functional ≤ (completion_from_steps steps).technical)
    × ((completion_from_steps steps).user_visible ≤ (completion_from_steps steps).technical)
    × ((completion_from_steps steps).technical ≤ (completion_from_steps steps).total)
    × (0 < (completion_from_steps steps).total)
completion-IsOrdered_example = completion-IsOrdered steps

integrity-lost_write_example : (completion_from_steps steps).side_effect_integrity ≡ 0
integrity-lost_write_example = integrity-lost_write steps refl

rogue_named : (build_incident (rogue_step ∷ []) "internal" "x").unintended_side_effects ≢ []
unfolding build_incident
rogue_named e = cc
