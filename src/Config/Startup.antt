-- ===== src/Config/Startup.antt =====
-- What the check of the environment lets through.
use shiori_api.Shared.{
  ◌≡◌, ◌↔◌, refl, sym, ◌∙◌, ap, subst, Bool, true, false, Option, none, some, List, [], ◌∷◌, Str,
  codes, str_eq_sound, trim, trim_of_blank, Option-cases, arith, Bool-cases, inl, inr,
}
use shiori_api.Cors.{
  nonempty, is_production, resolve_cors_origins, is_valid_in_production, has_origin,
}
use shiori_api.Config.{
  Variables, or_nothing, cors_env, parse_brokers, kafka_config, app_config, FieldResult, valid,
  dirty, aborted, Issue, refine, issues_of, Validated, accepted, refused, validate_production,
  validate_issues, validate_env,
}
use shiori_api.Config.Brokers.{OnlySeparators, parse_brokers-nil}

-- a text of brokers that is set and not blank; it names none if it has nothing but commas and white space
pub record IsBrokerText (v : Variables) (raw : Str) : Type 0 where
  pub set : v.kafka_brokers ≡ some raw
  pub filled : nonempty (trim raw) ≡ true
  pub none_listed : ((kafka_config v).brokers ≡ []) ↔ OnlySeparators raw

pub record IsRunnable (fields : Variables → FieldResult) (v : Variables) : Type 0 where
  pub fields_valid : fields v ≡ valid
  pub origins : is_production v.node_env ≡ true → has_origin (app_config v).cors_origins ≡ true
  pub brokers : (kafka_config v).enabled ≡ true → (raw : Str) × IsBrokerText v raw

is_accepted : Validated → Bool
is_accepted (accepted v) = true
is_accepted (refused text) = false

refused_not_accepted : (text : Str) (v : Variables) → refused text ≡ accepted v → ⊥
unfolding is_accepted
refused_not_accepted text v h = let c = ap is_accepted h in ground arith

production-is :
    (node_env : Option Str) → is_production node_env ≡ true → node_env ≡ some (codes "production")
production-is none h = absurd (ground arith)
production-is (some s) h = ap some (str_eq_sound s (codes "production") h)

-- in production the check reads what the application reads
origins-same :
    (v : Variables)
    → is_production v.node_env ≡ true
    → has_origin (app_config v).cors_origins ≡ is_valid_in_production (cors_env v)
unfolding app_config is_valid_in_production
origins-same v h =
    ap (λ e. has_origin (resolve_cors_origins (record (cors_env v) { node_env = e })))
      (production-is v.node_env h)

validate_production_iff :
    (v : Variables)
    → (validate_production v ≡ accepted v)
      ↔ (is_production v.node_env ≡ true → has_origin (app_config v).cors_origins ≡ true)
unfolding validate_production
validate_production_iff v = elim (Bool-cases (is_production v.node_env)) [
  | inr e ↦ rw e ((λ _ h. absurd (ground arith)), λ _. refl)
  | inl e ↦ elim (Bool-cases (is_valid_in_production (cors_env v))) [
    | inl f ↦ rw (e, f) ((λ _ _. origins-same v e ∙ f), λ _. refl)
    | inr f ↦
        rw (e, f)
          (
            (λ h. absurd (refused_not_accepted _ v h)),
            λ h. absurd (let c = sym (h refl) ∙ origins-same v e ∙ f in ground arith),
          )
  ]
]

IsBrokerText-set :
    (v : Variables) (raw : Str)
    → v.kafka_brokers ≡ some raw
    → nonempty (trim raw) ≡ true
    → IsBrokerText v raw
unfolding kafka_config
IsBrokerText-set v raw set filled = record {
  set = set;
  filled = filled;
  none_listed =
      subst (λ b. (parse_brokers b ≡ []) ↔ OnlySeparators raw) (sym set) (parse_brokers-nil raw);
}

-- the text that the refinement looks at
abbrev broker_text : Variables → Bool
broker_text v = nonempty (trim (or_nothing v.kafka_brokers))

refine_disabled : (v : Variables) → (kafka_config v).enabled ≡ false → refine v ≡ []
unfolding refine kafka_config
refine_disabled v e = rw e refl

refine_filled : (v : Variables) → broker_text v ≡ true → refine v ≡ []
unfolding refine
refine_filled v e = rw e (ground arith)

refine_missing :
    (v : Variables) → (kafka_config v).enabled ≡ true → broker_text v ≡ false → refine v ≡ [] → ⊥
unfolding refine kafka_config
refine_missing v e f = rw (e, f) (λ h. ground arith)

filled_text : (v : Variables) → broker_text v ≡ true → (raw : Str) × IsBrokerText v raw
filled_text v f = elim (Option-cases v.kafka_brokers) [
  | inl unset ↦ absurd (
      let c =
        sym f
        ∙ ap (λ b. nonempty (trim (or_nothing b))) unset
        ∙ ap nonempty (trim_of_blank [] tt) in
      ground arith)
  | inr (raw, set) ↦
      (raw, IsBrokerText-set v raw set (sym (ap (λ b. nonempty (trim (or_nothing b))) set) ∙ f))
]

text-filled : (v : Variables) (raw : Str) → IsBrokerText v raw → broker_text v ≡ true
text-filled v raw text = ap (λ b. nonempty (trim (or_nothing b))) text.set ∙ text.filled

refine-brokers :
    (v : Variables)
    → refine v ≡ []
    → (kafka_config v).enabled ≡ true
    → (raw : Str) × IsBrokerText v raw
refine-brokers v h e = elim (Bool-cases (broker_text v)) [
  | inl f ↦ filled_text v f
  | inr f ↦ absurd (refine_missing v e f h)
]

brokers-refine :
    (v : Variables)
    → ((kafka_config v).enabled ≡ true → (raw : Str) × IsBrokerText v raw)
    → refine v ≡ []
brokers-refine v h = elim (Bool-cases (kafka_config v).enabled) [
  | inl e ↦ refine_filled v (text-filled v (h e).0 (h e).1)
  | inr e ↦ refine_disabled v e
]

checked-none :
    (issues : List Issue) (v : Variables)
    → validate_issues issues v ≡ accepted v
    → (issues ≡ []) × (validate_production v ≡ accepted v)
unfolding validate_issues
checked-none [] v h = (refl, h)
checked-none (issue ∷ issues) v h = absurd (refused_not_accepted _ v h)

issues-none : (r : FieldResult) (v : Variables) → issues_of r v ≡ [] → (r ≡ valid) × (refine v ≡ [])
unfolding issues_of
issues-none valid v h = (refl, h)
issues-none (dirty issue issues) v h = absurd (ground arith)
issues-none (aborted issue issues) v h = absurd (ground arith)

-- `validateEnv` accepts an environment exactly if zod finds no fault with the fields, in production some origin is
-- allowed, and where Kafka is enabled KAFKA_BROKERS is set and not blank. The list of brokers that the
-- forwarder then reads can still be empty: it is so exactly if the text has only commas and white space.
pub validate_env_iff :
    (fields : Variables → FieldResult) (v : Variables)
    → (validate_env fields v ≡ accepted v) ↔ IsRunnable fields v
unfolding validate_env validate_issues issues_of
validate_env_iff fields v = (
  λ h.
      let (none_found, production) = checked-none (issues_of (fields v) v) v h in
      let (fields_valid, refined) = issues-none (fields v) v none_found in
      record {
        fields_valid = fields_valid;
        origins = (validate_production_iff v).0 production;
        brokers = refine-brokers v refined;
      },
  λ runnable.
      ap (λ r. validate_issues (issues_of r v) v) runnable.fields_valid
      ∙ ap (λ issues. validate_issues issues v) (brokers-refine v runnable.brokers)
      ∙ (validate_production_iff v).1 runnable.origins,
)
