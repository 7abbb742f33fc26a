-- ===== src/Agent/Config/Tests.antt =====
-- Runs of the loading of settings: a float is a number of thousandths.
use quer_project_q.Common.{◌≡◌, ◌↔◌, refl, not, none, some, ◌+◌, ◌*◌, ℤ, pos, negsuc, ltb_ℤ}
use quer_project_q.Agent.Json.{int, arr, nil, obj, Fields, end, field, fields}
use quer_project_q.Agent.Config.{
  Number, whole, real, Numbers, set_field, parsed, loaded, raises, set_fields, small_context,
  rejected,
}
use quer_project_q.Agent.Config.Load.{default_config, post_init, load_config}
use quer_project_q.Agent.Config.Valid.{IsValid, IsTyped, load_config-IsTyped}

abbrev thousandths : Number ℤ → ℤ
thousandths (whole (pos n)) = pos (1000 * n)
thousandths (whole (negsuc n)) = negsuc (1000 * n + 999)
thousandths (real x) = x

abbrev fixed_point : Numbers ℤ
fixed_point = record {
  literal = λ n. n;
  at_least = λ x y. not (ltb_ℤ (thousandths x) (thousandths y));
}

default_config-post_init : post_init fixed_point (default_config fixed_point) ≡ none
unfolding post_init default_config
default_config-post_init = refl

abbrev short_idle : Fields ℤ
short_idle = field "idle_min_seconds" (int (pos 60)) end

load_config-IsTyped_example :
    (load_config fixed_point (some (parsed (obj short_idle)))
      ≡ loaded (record (default_config fixed_point) { idle_min_seconds = pos 60 }))
    ↔ (IsTyped fixed_point (fields short_idle)
        × (set_fields (fields short_idle) (default_config fixed_point)
            ≡ record (default_config fixed_point) { idle_min_seconds = pos 60 })
        × IsValid fixed_point (record (default_config fixed_point) { idle_min_seconds = pos 60 }))
load_config-IsTyped_example =
    load_config-IsTyped fixed_point short_idle
      (record (default_config fixed_point) { idle_min_seconds = pos 60 })

small_context-run :
    load_config fixed_point (some (parsed (obj (field "num_ctx" (int (pos 2048)) end))))
    ≡ rejected small_context
unfolding load_config post_init set_field
small_context-run = refl

empty_list-run : load_config fixed_point (some (parsed (arr nil))) ≡ raises
unfolding load_config post_init set_field
empty_list-run = refl
