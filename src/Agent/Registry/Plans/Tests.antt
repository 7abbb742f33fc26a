-- ===== src/Agent/Registry/Plans/Tests.antt =====
-- A style that is not known, and one that is.
use quer_project_q.Common.{◌≡◌, refl, none, ℤ}
use quer_project_q.Agent.Registry.Plans.{plan_json_schema}
use quer_project_q.Agent.Registry.Plans.Strict.{SchemaResult, plan_json_schema-SchemaResult}

unknown_style : plan_json_schema {Float = ℤ} "nested" ≡ none
unfolding plan_json_schema
unknown_style = refl

plan_json_schema-SchemaResult_example : SchemaResult {Float = ℤ} "flat" (plan_json_schema "flat")
plan_json_schema-SchemaResult_example = plan_json_schema-SchemaResult ℤ "flat"
