-- ===== src/Cmd/Main/Laws.antt =====
-- The order in which `main` sets the program up.
use wso2is_operator.Base.{
  String, Bool, true, false, List, [], ◌∷◌, ◌++◌, map, Option, none, some, ◌≡◌, ◌⊎◌, inl, inr, refl,
  ap, take, drop, ◌∙◌,
}
use wso2is_operator.Base.Result.{Result, ok, err}
use wso2is_operator.Cmd.Options.{Flags, manager_options}
use wso2is_operator.Cmd.Main.{
  wso2_is_instance, wso2_sp, instance_controller, sp_controller, Runtime, Attempt, created_manager,
  looked_up_crd, set_up, added_healthz, added_readyz, started, Session, exit_1, go_on, Course,
  Setup, proceed, course, is_none, is_ok, ◌>>=◌, attempt, manager_or_exit, create_manager,
  check_crd, serve, main,
}

-- What has to succeed, in its order: the manager starts last.
abbrev pub plan : Flags → List Attempt
plan flags =
    created_manager (manager_options flags)
    ∷ looked_up_crd wso2_is_instance
    ∷ looked_up_crd wso2_sp
    ∷ set_up instance_controller
    ∷ set_up sp_controller
    ∷ added_healthz
    ∷ added_readyz
    ∷ started
    ∷ []

abbrev pub succeeded : List Attempt → List (Attempt × Bool)
succeeded = map (λ a. (a, true))

-- Either all of a list is done, or the program ends with its first failure and does nothing more.
abbrev pub Follows : {R : Runtime} → List Attempt → Course (Unit {0}) × Session R → Type 0
Follows all r =
    (r.0 ≡ go_on tt) × (r.1.attempts ≡ succeeded all)
    ⊎ (r.0 ≡ exit_1)
      × ((before : List Attempt) × (a : Attempt) × (after : List Attempt) × (before ++ (a ∷ after)
            ≡ all)
          × (r.1.attempts ≡ succeeded before ++ ((a, false) ∷ [])))

module _ (R : Runtime) (all : List Attempt) where
  next :
      (before : List Attempt) (a : Attempt) (after : List Attempt) (s : Session R)
      (f : R.State → Option String × R.State) (k : Unit {0} → Setup R (Unit {0}))
      → s.attempts ≡ succeeded before
      → before ++ (a ∷ after) ≡ all
      → ((t : Session R) → t.attempts ≡ succeeded before ++ ((a, true) ∷ []) → Follows all (k tt t))
      → Follows all ((attempt a f >>= k) s)
  unfolding attempt ◌>>=◌
  next before a after s f k e whole rest = go (f s.state).0
    where
      go :
          (r : Option String)
          → Follows all (
              proceed {R = R}
                (
                  course r,
                  record { state = (f s.state).1; attempts = s.attempts ++ ((a, is_none r) ∷ []) },
                )
                k)
      go none = rest _ (ap (λ l. l ++ ((a, true) ∷ [])) e)
      go (some x) = inr (refl, (before, a, after, whole, ap (λ l. l ++ ((a, false) ∷ [])) e))

  last :
      (before : List Attempt) (a : Attempt) (s : Session R) (f : R.State → Option String × R.State)
      → s.attempts ≡ succeeded before
      → before ++ (a ∷ []) ≡ all
      → succeeded before ++ ((a, true) ∷ []) ≡ succeeded all
      → Follows all (attempt a f s)
  unfolding attempt
  last before a s f e whole same = go (f s.state).0
    where
      go :
          (r : Option String)
          → Follows {R = R} all (
            course r,
            record { state = (f s.state).1; attempts = s.attempts ++ ((a, is_none r) ∷ []) },
          )
      go none = inl (refl, ap (λ l. l ++ ((a, true) ∷ [])) e ∙ same)
      go (some x) = inr (refl, (before, a, [], whole, ap (λ l. l ++ ((a, false) ∷ [])) e))

module _ (R : Runtime) (flags : Flags) where
  serve-Follows :
      (m : R.Manager) (s : Session R)
      → s.attempts ≡ succeeded (created_manager (manager_options flags) ∷ [])
      → Follows (plan flags) (serve R flags m s)
  unfolding serve check_crd
  serve-Follows m s e =
      let all : List Attempt = plan flags in
      next R all (take 1 all) _ (drop 2 all) s _ _ e refl (λ s e.
        next R all (take 2 all) _ (drop 3 all) s _ _ e refl (λ s e.
          next R all (take 3 all) _ (drop 4 all) s _ _ e refl (λ s e.
            next R all (take 4 all) _ (drop 5 all) s _ _ e refl (λ s e.
              next R all (take 5 all) _ (drop 6 all) s _ _ e refl (λ s e.
                next R all (take 6 all) _ (drop 7 all) s _ _ e refl
                  (λ s e. last R all (take 7 all) _ s (R.start m) e refl refl))))))

-- The program sets itself up in this order: the manager, the test for the definition of each of the
-- two kinds, the two controllers, the two checks, and at last the start. If it returns, all of this
-- succeeded; otherwise it exits with status 1 right after the first failure, so that the manager
-- is started only if all that goes before succeeded.
pub main-Follows :
    (R : Runtime) (flags : Flags) (s : Session R)
    → s.attempts ≡ []
    → Follows (plan flags) (main R flags s)
unfolding main create_manager ◌>>=◌
main-Follows R flags s e = go (R.new_manager (manager_options flags) s.state).0
  where
    go :
        (r : Result R.Manager)
        → Follows {R = R} (plan flags) (
            proceed {R = R}
              (
                manager_or_exit R flags r,
                record {
                  state = (R.new_manager (manager_options flags) s.state).1;
                  attempts =
                      s.attempts ++ ((created_manager (manager_options flags), is_ok r) ∷ []);
                },
              )
              (serve R flags))
    go (err x) = inr (
      refl,
      (
        [],
        created_manager (manager_options flags),
        drop 1 (plan flags),
        refl,
        ap (λ l. l ++ ((created_manager (manager_options flags), false) ∷ [])) e,
      ),
    )
    go (ok m) =
        serve-Follows R flags m _
          (ap (λ l. l ++ ((created_manager (manager_options flags), true) ∷ [])) e)
