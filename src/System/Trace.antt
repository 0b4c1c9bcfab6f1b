-- ===== src/System/Trace.antt =====
-- Which calls a piece of code can make, whatever the network and the Kubernetes API answer.
use wso2is_operator.Base.{
  String, Bool, true, false, List, [], ◌∷◌, ◌++◌, Option, none, some, ◌≡◌, refl, sym, ap, ◌∙◌, All,
  if◌then◌else◌,
}
use wso2is_operator.Base.Exit.{Exit, done, panicked, Panic}
use wso2is_operator.Base.Result.{Result, ok, err}
use wso2is_operator.System.Kube.{Event, Lookup, found, not_found, failed}
use wso2is_operator.System.Platform.{
  Platform, M, System, Call, recorded, pure, panic, lift, read, call, event, continue, ◌>>=◌, ◌>>◌,
}

-- The second state is the first with more calls, each of which passes a test.
abbrev pub Extends : {P : Platform} → (Call → Bool) → System P → System P → Type 0
Extends Q s s' = (cs : List Call) × (s'.calls ≡ cs ++ s.calls) × All (λ c. Q c ≡ true) cs

-- What one state may become: a relation that can be composed.
pub record Rule (P : Platform) : Type 1 where
  pub rel : System P → System P → Type 0
  pub stay : (s : System P) → rel s s
  pub compose : (s t u : System P) → rel s t → rel t u → rel s u

-- From every state the code ends in one that the rule allows, also if it panics.
pub data Only {P : Platform} {A : Type 0} (Q : Rule P) (m : M P A) : Type 0 where
  only : ((s : System P) → Q.rel s (m s).1) → Only Q m

abbrev pub runs :
    {P : Platform} {A : Type 0} {Q : Rule P} {m : M P A}
    → Only Q m
    → (s : System P) → Q.rel s (m s).1
runs (only f) = f

All-append :
    (Q : Call → Bool) (cs ds : List Call)
    → All (λ c. Q c ≡ true) cs
    → All (λ c. Q c ≡ true) ds
    → All (λ c. Q c ≡ true) (cs ++ ds)
All-append Q [] ds _ h = h
All-append Q (c ∷ cs) ds (p, ps) h = (p, All-append Q cs ds ps h)

append_assoc : (cs ds es : List Call) → (cs ++ ds) ++ es ≡ cs ++ (ds ++ es)
append_assoc [] ds es = refl
append_assoc (c ∷ cs) ds es = ap (λ l. c ∷ l) (append_assoc cs ds es)

pub Extends-refl : {P : Platform} (T : Call → Bool) (s : System P) → Extends T s s
Extends-refl T s = ([], refl, tt)

pub Extends-trans :
    {P : Platform} (T : Call → Bool) (s t u : System P)
    → Extends T s t
    → Extends T t u
    → Extends T s u
Extends-trans T s t u (cs, e, h) (ds, f, k) =
    (ds ++ cs, f ∙ ap (λ l. ds ++ l) e ∙ sym (append_assoc ds cs s.calls), All-append T ds cs k h)

-- Each call that the code makes passes the test.
abbrev pub extending : {P : Platform} → (Call → Bool) → Rule P
extending T = record { rel = Extends T; stay = Extends-refl T; compose = Extends-trans T }

module _ {P : Platform} (T : Call → Bool) where
  pub read-Only : {A : Type 0} (f : P.State → A × P.State) → Only {P = P} (extending T) (read f)
  unfolding read
  read-Only f = only (λ s. ([], refl, tt))

  pub call-Only :
      {A : Type 0} (c : Call) (f : P.State → A × P.State)
      → T c ≡ true
      → Only {P = P} (extending T) (call c f)
  unfolding call
  call-Only c f h = only (λ s. (c ∷ [], refl, (h, tt)))

  pub event-Only : (e : Event) → T (recorded e) ≡ true → Only {P = P} (extending T) (event e)
  unfolding event
  event-Only e h = only (λ s. (recorded e ∷ [], refl, (h, tt)))

module _ {P : Platform} (Q : Rule P) where
  pub Only-pure : {A : Type 0} (a : A) → Only {P = P} Q (pure a)
  unfolding pure
  Only-pure a = only (λ s. Q.stay s)

  pub Only-panic : (A : Type 0) (p : Panic) → Only {P = P} {A = A} Q (panic p)
  unfolding panic
  Only-panic A p = only (λ s. Q.stay s)

  pub Only-lift : {A : Type 0} (e : Exit A) → Only {P = P} Q (lift e)
  unfolding lift
  Only-lift e = only (λ s. Q.stay s)

  after :
      {A B : Type 0} (f : A → M P B) (e : Exit A) (s t : System P)
      → Q.rel s t
      → ((a : A) → Only Q (f a))
      → Q.rel s (continue e f t).1
  after f (done a) s t h k = Q.compose s t (f a t).1 h (runs (k a) t)
  after f (panicked p) s t h k = h

  pub Only-bind :
      {A B : Type 0} (m : M P A) (f : A → M P B)
      → Only Q m
      → ((a : A) → Only Q (f a))
      → Only {P = P} Q (m >>= f)
  unfolding ◌>>=◌
  Only-bind m f h k = only (λ s. after f (m s).0 s (m s).1 (runs h s) k)

  pub Only-then :
      {B : Type 0} (m : M P (Unit {0})) (k : M P B) → Only Q m → Only Q k → Only {P = P} Q (m >> k)
  unfolding ◌>>◌
  Only-then m k h j = Only-bind m (λ _. k) h (λ _. j)

  pub Only-if :
      {A : Type 0} (b : Bool) (m k : M P A) → Only Q m → Only Q k → Only Q (if b then m else k)
  Only-if true m k h j = h
  Only-if false m k h j = j

  pub Only-first :
      {A : Type 0} (b : Bool) (m k : M P A)
      → b ≡ true
      → Only Q m
      → Only {P = P} Q (if b then m else k)
  Only-first b m k e h = rw e h

  pub Only-else :
      {A : Type 0} (b : Bool) (m k : M P A)
      → b ≡ false
      → Only Q k
      → Only {P = P} Q (if b then m else k)
  Only-else b m k e h = rw e h

  pub Only-Option :
      {A B : Type 0} (o : Option A) (k : A → M P B) (m : M P B)
      → ((a : A) → Only Q (k a))
      → Only Q m
      → Only {P = P} Q (elim o [ some a ↦ k a | none ↦ m ])
  Only-Option none k m h j = j
  Only-Option (some a) k m h j = h a

  pub Only-Result :
      {A B : Type 0} (r : Result A) (k : String → M P B) (m : A → M P B)
      → ((e : String) → Only Q (k e))
      → ((a : A) → Only Q (m a))
      → Only {P = P} Q (elim r [ err e ↦ k e | ok a ↦ m a ])
  Only-Result (err e) k m h j = h e
  Only-Result (ok a) k m h j = j a

  pub Only-Lookup :
      {A B : Type 0} (r : Lookup A) (k : A → M P B) (n m : String → M P B)
      → ((a : A) → Only Q (k a))
      → ((e : String) → Only Q (n e))
      → ((e : String) → Only Q (m e))
      → Only {P = P} Q (elim r [ found a ↦ k a | not_found e ↦ n e | failed e ↦ m e ])
  Only-Lookup (found a) k n m h i j = h a
  Only-Lookup (not_found e) k n m h i j = i e
  Only-Lookup (failed e) k n m h i j = j e
