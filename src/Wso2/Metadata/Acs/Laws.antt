-- ===== src/Wso2/Metadata/Acs/Laws.antt =====
-- What `collectACSURLs` returns: every URL in order, and the default that the metadata names.
use mathlib.Core.List.{append_assoc, append-nil, Memᴰ}
use wso2is_operator.Base.{
  String, Bool, List, [], ◌∷◌, ◌++◌, map, none, some, elems, ℤ, ◌≤ℤ◌, ltb_ℤ, ◌==◌, eq_iff,
  find_last, All, ◌⊎◌, ◌≡◌, refl, sym, subst, ◌∙◌, ◌≢◌, arith, Bool-cases, Option-cases, inl, inr,
  ne_of_eq_false,
}
use wso2is_operator.Wso2.Metadata.Descriptor.{AssertionConsumerService}
use wso2is_operator.Wso2.Metadata.Acs.{AcsScan, acs_round, acs_loop, acs_start, collect_acs_urls}

abbrev pub location_of : AssertionConsumerService → String
location_of acs = acs.location

abbrev pub default_of : AssertionConsumerService → Bool
default_of acs = acs.is_default

acs_loop-urls :
    (st : AcsScan) (services : List AssertionConsumerService)
    → (acs_loop st services).urls ≡ st.urls ++ map location_of services
unfolding acs_loop
acs_loop-urls st [] = rw append-nil
acs_loop-urls st (acs ∷ services) = acs_loop-urls (acs_round st acs) services ∙ rw append_assoc

-- The URLs are those of all services, in the order of the metadata.
pub collect_acs_urls-urls :
    (services : List AssertionConsumerService)
    → elems (collect_acs_urls services).0 ≡ map location_of services
unfolding collect_acs_urls
collect_acs_urls-urls [] = refl
collect_acs_urls-urls (first ∷ rest) = acs_loop-urls (acs_start first) (first ∷ rest)

-- The URL of the last default among the services, or the one at hand.
abbrev last_default : String → List AssertionConsumerService → String
last_default url services = elim (find_last default_of services) [
  | none ↦ url
  | some acs ↦ acs.location
]

acs_loop-default :
    (st : AcsScan) (services : List AssertionConsumerService)
    → (acs_loop st services).default_url ≡ last_default st.default_url services
unfolding acs_loop find_last
acs_loop-default st [] = refl
acs_loop-default st (acs ∷ services) = ground (arith, acs_loop-default (acs_round st acs) services)

-- One of the services has the index and the URL.
abbrev IsServed : ℤ → String → List AssertionConsumerService → Type 0
IsServed index url services =
    (acs : AssertionConsumerService) × Memᴰ acs services
    × (acs.index ≡ index)
    × (acs.location ≡ url)

-- What the two variables for the lowest index hold after the loop.
record Lowest (st r : AcsScan) (services : List AssertionConsumerService) : Type 0 where
  no_higher : r.lowest_index ≤ℤ st.lowest_index
  bounds : All (λ other. r.lowest_index ≤ℤ other.index) services
  origin :
      ((r.lowest_index ≡ st.lowest_index) × (r.lowest_url ≡ st.lowest_url))
      ⊎ IsServed r.lowest_index r.lowest_url services

acs_round-Lowest :
    (st : AcsScan) (acs : AssertionConsumerService) (services : List AssertionConsumerService)
    (r : AcsScan)
    → Lowest (acs_round st acs) r services
    → Lowest st r (acs ∷ services)
unfolding acs_round
acs_round-Lowest st acs services r h = elim (Bool-cases (ltb_ℤ acs.index st.lowest_index)) [
  | inl lower ↦ record {
    no_higher = ground arith;
    bounds = (ground arith, h.bounds);
    origin = elim h.origin [
      | inl (index, url) ↦ inr (acs, Memᴰ.head refl, ground arith, ground arith)
      | inr (s, m, index, url) ↦ inr (s, Memᴰ.tail m, index, url)
    ];
  }
  | inr not_lower ↦ record {
    no_higher = ground arith;
    bounds = (ground arith, h.bounds);
    origin = elim h.origin [
      | inl (index, url) ↦ inl (ground arith, ground arith)
      | inr (s, m, index, url) ↦ inr (s, Memᴰ.tail m, index, url)
    ];
  }
]

acs_loop-Lowest :
    (st : AcsScan) (services : List AssertionConsumerService)
    → Lowest st (acs_loop st services) services
unfolding acs_loop
acs_loop-Lowest st [] = record { no_higher = omega arith; bounds = tt; origin = inl (refl, refl) }
acs_loop-Lowest st (acs ∷ services) =
    acs_round-Lowest st acs services _ (acs_loop-Lowest (acs_round st acs) services)

-- The URL of a service whose index is the lowest.
pub record IsLowest (url : String) (services : List AssertionConsumerService) : Type 0 where
  pub service : AssertionConsumerService
  pub listed : Memᴰ service services
  pub location : service.location ≡ url
  pub lowest : All (λ other. service.index ≤ℤ other.index) services

-- What the default URL should be: the URL of the last service that the metadata marks as the
-- default if it marks one with a URL, and else that of a service with the lowest index.
abbrev pub IsDefaultAcs : String → List AssertionConsumerService → Type 0
IsDefaultAcs url services =
    ((acs : AssertionConsumerService) × (find_last default_of services ≡ some acs)
      × (acs.location ≢ "")
      × (url ≡ acs.location))
    ⊎ ((last_default "" services ≡ "") × IsLowest url services)

-- The service that the loop starts from bounds nothing that the loop does not meet again.
acs_loop-IsLowest :
    (first : AssertionConsumerService) (rest : List AssertionConsumerService)
    → IsLowest (acs_loop (acs_start first) (first ∷ rest)).lowest_url (first ∷ rest)
acs_loop-IsLowest first rest =
    let h = acs_loop-Lowest (acs_start first) (first ∷ rest) in
    elim h.origin [
      | inl (index, url) ↦ record {
        service = first;
        listed = Memᴰ.head refl;
        location = sym url;
        lowest = subst (λ i. All (λ other. i ≤ℤ other.index) (first ∷ rest)) index h.bounds;
      }
      | inr (s, m, index, url) ↦ record {
        service = s;
        listed = m;
        location = url;
        lowest = subst (λ i. All (λ other. i ≤ℤ other.index) (first ∷ rest)) (sym index) h.bounds;
      }
    ]

-- The default URL of a non-empty list of services is that of the last service marked as the default,
-- if there is one and it has a URL, and else that of a service with the lowest index.
pub collect_acs_urls-IsDefaultAcs :
    (first : AssertionConsumerService) (rest : List AssertionConsumerService)
    → IsDefaultAcs (collect_acs_urls (first ∷ rest)).1 (first ∷ rest)
unfolding collect_acs_urls
collect_acs_urls-IsDefaultAcs first rest =
    let st = acs_loop (acs_start first) (first ∷ rest) in
    let marked = acs_loop-default (acs_start first) (first ∷ rest) in
    elim (Bool-cases (st.default_url == "")) [
      | inl empty ↦ inr (sym marked ∙ (eq_iff _ _).0 empty, rw empty (acs_loop-IsLowest first rest))
      | inr given ↦ elim (Option-cases (find_last default_of (first ∷ rest))) [
        | inl missing ↦ absurd (ne_of_eq_false _ _ given (marked ∙ rw (missing, last_default) refl))
        | inr (acs, found) ↦ inl (
          acs,
          found,
          λ e. ne_of_eq_false _ _ given (marked ∙ rw (found, last_default) e),
          rw given (marked ∙ rw (found, last_default) refl),
        )
      ]
    ]
