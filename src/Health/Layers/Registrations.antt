-- ===== src/Health/Layers/Registrations.antt =====
-- Registering a service keeps the layers, and a round of checks ends.
use bank_fastapi.Prelude.{
  ℕ, suc, ◌<◌, ◌≡◌, refl, ◌∙◌, ap, sym, subst, true, false, inl, inr, Bool-cases, List, [], ◌∷◌,
  ◌++◌, String, str_eq, arith, eq_iff, ◌||◌, if◌then◌else◌,
}
use bank_fastapi.Prelude.Rows.{All, length, no_rows}
use bank_fastapi.Core.{ok, Result-cases}
use bank_fastapi.Health.Services.{
  ServiceStatus, Service, HealthCheck, Dependency, is_registered, put_service, dependencies_of,
  validate_dependencies, add_service,
}
use bank_fastapi.Health.Layers.{names_of, is_name, is_registered-names, IsRanked, All-map}

put_service-names :
    (s : Service) (services : List Service)
    → is_registered s.name services ≡ false
    → names_of (put_service s services) ≡ names_of services ++ s.name ∷ []
put_service-names s [] fresh = refl
put_service-names s (x ∷ xs) fresh = elim (Bool-cases (str_eq x.name s.name)) [
  | inl e ↦ ground (arith, e)
  | inr e ↦
      let rest : is_registered s.name xs ≡ false = ground (arith, e) in
      rw (e, put_service-names s xs rest) refl
]

is_name-snoc :
    (d name : String) (names : List String)
    → is_name d (names ++ name ∷ []) ≡ (is_name d names || str_eq name d)
is_name-snoc d name [] = ground arith
is_name-snoc d name (x ∷ xs) = ground (arith, is_name-snoc d name xs)

length-snoc :
    (name : String) (names : List String) → length (names ++ name ∷ []) ≡ suc (length names)
length-snoc name [] = refl
length-snoc name (x ∷ xs) = ap suc (length-snoc name xs)

validate_dependencies-registered :
    (deps : List String) (services : List Service)
    → validate_dependencies deps services ≡ ok tt
    → All (λ d. is_name d (names_of services) ≡ true) deps
validate_dependencies-registered [] services e = tt
validate_dependencies-registered (d ∷ deps) services e =
    elim (Bool-cases (is_registered d services)) [
      | inl r ↦ (
        sym (is_registered-names d services) ∙ r,
        validate_dependencies-registered deps services (ground (arith, r)),
      )
      | inr r ↦ ground (arith, r)
    ]

All-zip :
    {A : Type 0} (P Q R : A → Type 0) (xs : List A)
    → ((x : A) → P x → Q x → R x)
    → All P xs
    → All Q xs
    → All R xs
All-zip P Q R [] f p q = tt
All-zip P Q R (x ∷ xs) f p q = (f x p.0 q.0, All-zip P Q R xs f p.1 q.1)

abbrev pub IsLayered : HealthCheck → Type 0
IsLayered h = (rank : String → ℕ) × IsRanked (names_of h.services) h.dependencies rank

module _ (name : String) (names : List String) (rank : String → ℕ) where
  abbrev above : String → ℕ
  above x = if str_eq name x then length names else rank x

  abbrev IsBelow : String → String → Type 0
  IsBelow x d =
      (is_name x (names ++ name ∷ []) ≡ true)
      × (is_name d (names ++ name ∷ []) ≡ true)
      × (above d < above x)

  dependencies_of-own :
      (x : String) (deps : List String) (entries : List Dependency)
      → str_eq name x ≡ true
      → dependencies_of x ((record { dependent = name; depends_on = deps }) ∷ entries) ≡ deps
  dependencies_of-own x deps entries e = ground (arith, e)

  dependencies_of-other :
      (x : String) (deps : List String) (entries : List Dependency)
      → str_eq name x ≡ false
      → dependencies_of x ((record { dependent = name; depends_on = deps }) ∷ entries)
        ≡ dependencies_of x entries
  dependencies_of-other x deps entries e = ground (arith, e)

  differs :
      (x : String) → is_name name names ≡ false → is_name x names ≡ true → str_eq name x ≡ false
  differs x fresh r = elim (Bool-cases (str_eq name x)) [
    | inl e ↦
        let same : name ≡ x = (eq_iff name x).0 e in
        ground (arith, subst (λ n. is_name n names ≡ false) same fresh)
    | inr e ↦ e
  ]

  above-IsRanked :
      (entries : List Dependency)
      → is_name name names ≡ false
      → IsRanked names entries rank
      → IsRanked (names ++ name ∷ []) entries above
  above-IsRanked entries fresh ranked = (
    λ x r. rw (length-snoc name names) (ground (arith, is_name-snoc x name names, ranked.0 x)),
    λ x.
        All-map _ (IsBelow x) (dependencies_of x entries)
          (λ d h. (
            ground (arith, is_name-snoc x name names),
            ground (arith, is_name-snoc d name names),
            ground (arith, differs x fresh h.0, differs d fresh h.1),
          ))
          (ranked.1 x),
  )

  -- With dependencies: each is registered, and none is the service itself.
  above-IsRanked_entered :
      (deps : List String) (entries : List Dependency)
      → is_name name names ≡ false
      → All (λ d. str_eq name d ≡ false) deps
      → All (λ d. is_name d (names ++ name ∷ []) ≡ true) deps
      → IsRanked names entries rank
      → IsRanked
          (names ++ name ∷ [])
          ((record { dependent = name; depends_on = deps }) ∷ entries)
          above
  above-IsRanked_entered deps entries fresh others known ranked =
      let old = above-IsRanked entries fresh ranked in
      (
        old.0,
        λ x. elim (Bool-cases (str_eq name x)) [
          | inl e ↦ subst (All (IsBelow x)) (sym (dependencies_of-own x deps entries e)) (
              All-zip _ _ (IsBelow x) deps
                (λ d o k. (
                  ground (arith, is_name-snoc x name names),
                  k,
                  ground (arith, is_name-snoc d name names, ranked.0 d),
                ))
                others known)
          | inr e ↦ subst (All (IsBelow x)) (sym (dependencies_of-other x deps entries e)) (old.1 x)
        ],
      )

pub add_service-IsLayered :
    (now : ℕ) (name : String) (max_attempts : ℕ) (depends_on : List String) (h : HealthCheck)
    → is_registered name h.services ≡ false
    → All (λ d. str_eq name d ≡ false) depends_on
    → IsLayered h
    → IsLayered (add_service now name max_attempts depends_on h).1
unfolding add_service
add_service-IsLayered now name max_attempts depends_on h fresh others (rank, ranked) =
    let service : Service = record {
      name = name;
      service_status = ServiceStatus.starting;
      max_attempts = max_attempts;
      last_check = now;
    } in
    let names = names_of h.services in
    let new : names_of (put_service service h.services) ≡ names ++ name ∷ [] =
      put_service-names service h.services fresh in
    let unknown : is_name name names ≡ false = sym (is_registered-names name h.services) ∙ fresh in
    (
      above name names rank,
      elim (Bool-cases (no_rows depends_on)) [
        | inl e ↦ rw (e, new) (above-IsRanked name names rank h.dependencies unknown ranked)
        | inr e ↦
            elim (Result-cases
              (validate_dependencies depends_on (put_service service h.services))) [
                | inl (error, v) ↦
                    rw (e, v, new) (above-IsRanked name names rank h.dependencies unknown ranked)
                | inr (u, v) ↦
                    rw (e, v, new)
                      (above-IsRanked_entered name names rank depends_on h.dependencies unknown
                        others
                        (subst (λ ns. All (λ d. is_name d ns ≡ true) depends_on) new
                          (validate_dependencies-registered depends_on
                            (put_service service h.services) v))
                        ranked)
              ]
      ],
    )
