-- ===== src/Cmd/Main.antt =====
-- cmd/main.go: `main`, and `SetupWithManager` of internal/controller. What it calls of
-- controller-runtime is a parameter.
pub mod Laws
use wso2is_operator.Base.{String, Bool, true, false, List, [], ◌∷◌, ◌++◌, Option, none, some}
use wso2is_operator.Base.Result.{Result, ok, err}
use wso2is_operator.Cmd.Options.{Flags, ManagerOptions, manager_options}

-- The kinds of object that the operator reconciles.
pub data Kind : Type 0 where
  wso2_is_instance : Kind
  wso2_sp : Kind

-- The group, version and kind.
pub record Gvk : Type 0 where
  pub group : String
  pub version : String
  pub kind : String

-- What a reconciler is registered with: its recorder's name, and the `For` and `Named` of the builder.
pub record Controller : Type 0 where
  pub recorder : String
  pub for_kind : Kind
  pub named : String

unfoldable pub instance_controller : Controller
instance_controller = record {
  recorder = "wso2isinstancereconciler-controller";
  for_kind = wso2_is_instance;
  named = "wso2isinstance";
}

unfoldable pub sp_controller : Controller
sp_controller = record {
  recorder = "wso2spreconciler-controller";
  for_kind = wso2_sp;
  named = "wso2sp";
}

-- controller-runtime over an unknown state. `object_kinds` is the scheme's; the other functions give
-- an error, if any. `new_manager` stands for `GetConfigOrDie` too, which ends the program as well.
pub record Runtime : Type 1 where
  pub State : Type 0
  pub Manager : Type 0
  pub new_manager : ManagerOptions → State → Result Manager × State
  pub object_kinds : Kind → Result (List Gvk)
  pub rest_mapping : Manager → Gvk → State → Option String × State
  pub complete : Manager → Controller → State → Option String × State
  pub add_healthz_check : Manager → String → State → Option String × State
  pub add_readyz_check : Manager → String → State → Option String × State
  pub start : Manager → State → Option String × State

-- What was attempted.
pub data Attempt : Type 0 where
  created_manager : ManagerOptions → Attempt
  looked_up_crd : Kind → Attempt
  set_up : Controller → Attempt
  added_healthz : Attempt
  added_readyz : Attempt
  started : Attempt

-- The attempts stand in their order, each with whether it succeeded.
pub record Session (R : Runtime) : Type 0 where
  pub state : R.State
  pub attempts : List (Attempt × Bool)

-- `os.Exit(1)`, or going on.
pub data Course (A : Type 0) : Type 0 where
  exit_1 : Course A
  go_on : A → Course A

abbrev pub course : Option String → Course (Unit {0})
course none = go_on tt
course (some e) = exit_1

abbrev pub is_none : Option String → Bool
is_none none = true
is_none (some _) = false

abbrev pub is_ok : {A : Type 0} → Result A → Bool
is_ok (ok _) = true
is_ok (err _) = false

abbrev pub Setup : Runtime → Type 0 → Type 0
Setup R A = Session R → Course A × Session R

module _ {R : Runtime} where
  abbrev pub proceed :
      {A B : Type 0} → Course A × Session R → (A → Setup R B) → Course B × Session R
  proceed (exit_1, s) f = (exit_1, s)
  proceed (go_on a, s) f = f a s

  infixl 5 ◌>>=◌
  unfoldable pub ◌>>=◌ : {A B : Type 0} → Setup R A → (A → Setup R B) → Setup R B
  ◌>>=◌ m f s = proceed (m s) f

  -- `if err := f(); err != nil { os.Exit(1) }`
  unfoldable pub attempt : Attempt → (R.State → Option String × R.State) → Setup R (Unit {0})
  attempt a f s =
      let r = f s.state in
      (course r.0, record { state = r.1; attempts = s.attempts ++ ((a, is_none r.0) ∷ []) })

module _ (R : Runtime) (flags : Flags) where
  abbrev pub manager_or_exit : Result R.Manager → Course R.Manager
  manager_or_exit (err e) = exit_1
  manager_or_exit (ok m) = go_on m

  unfoldable pub create_manager : Setup R R.Manager
  unfolding manager_options
  create_manager s =
      let r = R.new_manager (manager_options flags) s.state in
      (
        manager_or_exit r.0,
        record {
          state = r.1;
          attempts = s.attempts ++ ((created_manager (manager_options flags), is_ok r.0) ∷ []);
        },
      )

  -- One round of the loop over the kinds. A kind that the scheme does not know, or knows by no
  -- group, version and kind, ends the program as well.
  abbrev pub look_up : R.Manager → Kind → Result (List Gvk) → R.State → Option String × R.State
  look_up m k (err e) s = (some e, s)
  look_up m k (ok []) s = (some "", s)
  look_up m k (ok (gvk ∷ gvks)) s = R.rest_mapping m gvk s

  unfoldable pub check_crd : R.Manager → Kind → Setup R (Unit {0})
  unfolding attempt
  check_crd m k = attempt (looked_up_crd k) (look_up m k (R.object_kinds k))

  -- From the point where there is a manager.
  unfoldable pub serve : R.Manager → Setup R (Unit {0})
  unfolding check_crd attempt
  serve m = do
    _ ← check_crd m wso2_is_instance
    _ ← check_crd m wso2_sp
    _ ← attempt (set_up instance_controller) (R.complete m instance_controller)
    _ ← attempt (set_up sp_controller) (R.complete m sp_controller)
    _ ← attempt added_healthz (R.add_healthz_check m "healthz")
    _ ← attempt added_readyz (R.add_readyz_check m "readyz")
    attempt started (R.start m)

  unfoldable pub main : Setup R (Unit {0})
  unfolding create_manager serve
  main = do m ← create_manager; serve m
