-- ===== src/Kernel/Gates.antt =====
-- QualityGateRunner of packages/quality/gates/service.py. The digits of a number are the argument
-- `digits`, and whether the literal of a float is not zero the argument `nonzero`.
use ai_devops.Common.{
  ℕ, ◌+◌, String, Bool, true, false, [], ◌∷◌, ◌==◌, length, not, concat, if◌then◌else◌,
}
use ai_devops.Common.Assoc.{Assoc}
use ai_devops.Common.Int.{pos, is_zero}
use ai_devops.PlanSchema.Json.{
  Value, Fields, end, field, get, null, bool, int, float, str, obj, arr, nil, cons,
}
use ai_devops.PlanSchema.Text.{is_empty}
use ai_devops.Kernel.Models.{QualityRun, QualityRunStatus}

-- bool(value)
unfoldable pub truthy : (String → Bool) → Value → Bool
truthy nonzero null = false
truthy nonzero (bool b) = b
truthy nonzero (int i) = not (is_zero i)
truthy nonzero (float s) = nonzero s
truthy nonzero (str s) = not (is_empty s)
truthy nonzero (obj end) = false
truthy nonzero (obj (field k v fs)) = true
truthy nonzero (arr nil) = false
truthy nonzero (arr (cons v vs)) = true

-- result.get("passed")
unfoldable pub gate_passed : (String → Bool) → Fields → Bool
unfolding truthy
gate_passed nonzero result = truthy nonzero (get result "passed")

-- the sum over the gates that passed
unfoldable pub count_passed : (String → Bool) → Assoc Fields → ℕ
unfolding gate_passed
count_passed nonzero [] = 0
count_passed nonzero ((name, result) ∷ rest) =
    (if gate_passed nonzero result then 1 else 0) + count_passed nonzero rest

unfoldable pub gates_value : Assoc Fields → Fields
gates_value [] = end
gates_value ((name, result) ∷ rest) = field name (obj result) (gates_value rest)

-- run
unfoldable pub run_gates : (ℕ → String) → (String → Bool) → String → Assoc Fields → QualityRun
unfolding count_passed gates_value
run_gates digits nonzero work_item_id results =
    let total = length results in
    let passed = count_passed nonzero results in
    record {
      quality_run_id = concat "qr_" (concat work_item_id (concat "_" (digits total)));
      work_item_id = work_item_id;
      gate_type = "composite";
      status = if passed == total then QualityRunStatus.passed else QualityRunStatus.failed;
      summary = concat (digits passed) (concat "/" (concat (digits total) " gates passed"));
      payload =
          field "gates" (obj (gates_value results))
            (field "passedCount" (int (pos passed)) (field "totalCount" (int (pos total)) end));
    }
