-- ===== src/PlanSchema/Print/RoutingTrip.antt =====
-- The routing defaults, and the optional fields at the end of a plan's `to_dict`, read back.
use ai_devops.Common.{
  zero, suc, String, List, [], ◌∷◌, Option, none, some, true, false, ◌≡◌, refl, ◌∙◌, All, str_eq,
  Bool-cases, inl, inr,
}
use ai_devops.Common.Int.{ℤ, pos, negsuc, is_zero}
use ai_devops.Common.Result.{ok}
use ai_devops.PlanSchema.Json.{Value, null, str, obj, get, has, Fields, end, field}
use ai_devops.PlanSchema.Text.{is_empty}
use ai_devops.PlanSchema.Parse.{
  optional_string, optional_string_list, optional_dict, routing_from_dict, check_default,
  allowed_agents, allowed_efforts, priority_of,
}
use ai_devops.PlanSchema.Parse.FieldLaws.{IsTrimmed, TrimmedOption, optional_string_list-get}
use ai_devops.PlanSchema.Parse.SubtaskValid.{TrimmedRouting}
use ai_devops.PlanSchema.Print.{
  routing_to_dict, routing_part, depends_part, priority_part, optional_field,
}
use ai_devops.PlanSchema.Types.{RoutingDefaults, Error}

abbrev option_value : Option String → Value
option_value none = null
option_value (some s) = str s

optional_string-value :
    (d : Fields) (key : String) (o : Option String)
    → TrimmedOption o
    → get d key ≡ option_value o
    → optional_string d key ≡ ok o
unfolding optional_string
optional_string-value d key none t e = rw e
optional_string-value d key (some s) t e = rw (e, t.stripped, t.filled)

get-optional_field_other :
    (key k : String) (o : Option String) (rest : Fields)
    → str_eq key k ≡ false
    → get (optional_field key o rest) k ≡ get rest k
unfolding optional_field get
get-optional_field_other key k none rest e = refl
get-optional_field_other key k (some s) rest e = elim (Bool-cases (is_empty s)) [
  | inl h ↦ rw h
  | inr h ↦ rw (h, e)
]

get-optional_field :
    (key : String) (o : Option String) (rest : Fields)
    → str_eq key key ≡ true
    → TrimmedOption o
    → get rest key ≡ null
    → get (optional_field key o rest) key ≡ option_value o
unfolding optional_field get
get-optional_field key none rest e t h = h
get-optional_field key (some s) rest e t h = rw (t.filled, e)

-- The defaults of a plan are read back as they were written.
pub routing_from_dict-to_dict :
    (r : RoutingDefaults)
    → TrimmedRouting r
    → check_default allowed_agents Error.unsupported_agent r.agent ≡ ok tt
    → check_default allowed_efforts Error.unsupported_effort r.effort ≡ ok tt
    → routing_from_dict (routing_to_dict r) ≡ ok r
unfolding routing_from_dict routing_to_dict get
routing_from_dict-to_dict r t a e =
    let effort = optional_field "effort" r.effort end in
    let model = optional_field "model" r.model effort in
    let d = routing_to_dict r in
    rw (
      optional_string-value d "agent" r.agent t.agent (
          get-optional_field "agent" r.agent model refl t.agent (
            get-optional_field_other "model" "agent" r.model effort refl
            ∙ get-optional_field_other "effort" "agent" r.effort end refl)),
      optional_string-value d "model" r.model t.model (
          get-optional_field_other "agent" "model" r.agent model refl
          ∙ get-optional_field "model" r.model effort refl t.model
              (get-optional_field_other "effort" "model" r.effort end refl)),
      optional_string-value d "effort" r.effort t.effort (
          get-optional_field_other "agent" "effort" r.agent model refl
          ∙ (get-optional_field_other "model" "effort" r.model effort refl
              ∙ get-optional_field "effort" r.effort end refl t.effort refl)),
      a,
      e,
    )

abbrev pub tail_fields : Fields → List String → ℤ → Fields
tail_fields routing xs n = routing_part routing (depends_part xs (priority_part n))

get-priority_part_other :
    (n : ℤ) (k : String) → str_eq "globalPriority" k ≡ false → get (priority_part n) k ≡ null
unfolding priority_part get
get-priority_part_other n k e = elim (Bool-cases (is_zero n)) [ inl h ↦ rw h | inr h ↦ rw (h, e) ]

get-tail-routing :
    (fs : Fields) (xs : List String) (n : ℤ)
    → get (tail_fields fs xs n) "routing"
      ≡ elim fs [ end ↦ null | field k v gs ↦ obj (field k v gs) ]
unfolding routing_part depends_part get
get-tail-routing end [] n = get-priority_part_other n "routing" refl
get-tail-routing end (x ∷ xs) n = get-priority_part_other n "routing" refl
get-tail-routing (field k v fs) xs n = refl

pub optional_dict-routing :
    (d fs : Fields) (xs : List String) (n : ℤ)
    → get d "routing" ≡ get (tail_fields fs xs n) "routing"
    → optional_dict d "routing" ≡ ok fs
unfolding optional_dict
optional_dict-routing d end xs n e = rw (e ∙ get-tail-routing end xs n)
optional_dict-routing d (field k v fs) xs n e = rw (e ∙ get-tail-routing (field k v fs) xs n)

get-tail-depends :
    (fs : Fields) (xs : List String) (n : ℤ)
    → get (tail_fields fs xs n) "planDependsOn"
      ≡ get (depends_part xs (priority_part n)) "planDependsOn"
unfolding routing_part get
get-tail-depends end xs n = refl
get-tail-depends (field k v fs) xs n = refl

pub optional_string_list-depends :
    (d fs : Fields) (xs : List String) (n : ℤ)
    → All IsTrimmed xs
    → get d "planDependsOn" ≡ get (tail_fields fs xs n) "planDependsOn"
    → optional_string_list d "planDependsOn" ≡ ok xs
unfolding depends_part get
optional_string_list-depends d fs [] n t e =
    unfold optional_string_list in
    rw (e ∙ (get-tail-depends fs [] n ∙ get-priority_part_other n "planDependsOn" refl))
optional_string_list-depends d fs (x ∷ xs) n t e =
    optional_string_list-get d "planDependsOn" (x ∷ xs) t (e ∙ get-tail-depends fs (x ∷ xs) n)

tail_priority :
    (fs : Fields) (xs : List String) (n : ℤ)
    → (get (tail_fields fs xs n) "globalPriority" ≡ get (priority_part n) "globalPriority")
      × (has (tail_fields fs xs n) "globalPriority" ≡ has (priority_part n) "globalPriority")
unfolding routing_part depends_part get has
tail_priority end [] n = (refl, refl)
tail_priority end (x ∷ xs) n = (refl, refl)
tail_priority (field k v fs) [] n = (refl, refl)
tail_priority (field k v fs) (x ∷ xs) n = (refl, refl)

pub priority_of-tail :
    (d fs : Fields) (xs : List String) (n : ℤ)
    → get d "globalPriority" ≡ get (tail_fields fs xs n) "globalPriority"
    → has d "globalPriority" ≡ has (tail_fields fs xs n) "globalPriority"
    → priority_of d ≡ n
unfolding priority_of priority_part get has
priority_of-tail d fs xs (pos zero) e h = rw (h ∙ (tail_priority fs xs (pos zero)).1)
priority_of-tail d fs xs (pos (suc n)) e h =
    rw (h ∙ (tail_priority fs xs (pos (suc n))).1, e ∙ (tail_priority fs xs (pos (suc n))).0)
priority_of-tail d fs xs (negsuc n) e h =
    rw (h ∙ (tail_priority fs xs (negsuc n)).1, e ∙ (tail_priority fs xs (negsuc n)).0)

pub optional_dict-get :
    (d : Fields) (key : String) (fs : Fields) → get d key ≡ obj fs → optional_dict d key ≡ ok fs
unfolding optional_dict
optional_dict-get d key fs e = rw e
