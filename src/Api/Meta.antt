-- ===== src/Api/Meta.antt =====
-- What the program reads and writes of the Kubernetes metadata of an object, and the conditions of a
-- status (`metav1.ObjectMeta` and `metav1.Condition`).
use wso2is_operator.Base.{String, Bool, List, [], ◌∷◌, Option, ℤ, ◌==◌, if◌then◌else◌}

pub record ObjectMeta : Type 0 where
  pub name : String
  pub namespace : String
  pub generation : ℤ
  -- The deletion timestamp is set.
  pub deleting : Bool
  pub finalizers : List String
  -- `none` is a nil map.
  pub annotations : Option (List (String × String))

-- `m[key]`, which is empty for a missing key.
unfoldable pub get_text : String → List (String × String) → String
get_text key [] = ""
get_text key ((k, v) ∷ m) = if k == key then v else get_text key m

pub data ConditionStatus : Type 0 where
  condition_true condition_false : ConditionStatus

pub record Condition : Type 0 where
  pub kind : String
  pub status : ConditionStatus
  pub reason : String
  pub message : String
  pub observed_generation : ℤ
  pub last_transition_time : ℤ
