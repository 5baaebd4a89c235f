-- ===== src/Skills/Invariant.antt =====
-- internal/skills/registry.go and router.go: what every registry keeps to, and which skills a task
-- is routed to.
use code_co_driver.Prelude.{
  Bool-cases, Option-cases, is_some, if◌then◌else◌, All, IsDistinct, Outcome, ok, err, String, ◌≡◌,
  refl, sym, ap, ◌∙◌, ◌⊎◌, inl, inr, Bool, true, ◌||◌, Option, none, some, List, [], ◌∷◌, map,
  arith, ◌==◌, eq_iff, eq_refl,
}
use mathlib.Core.Option.{some-injective}
use mathlib.Core.Path.{subst}
use code_co_driver.Prelude.Text.{Unicode, trim_space, is_empty}
use code_co_driver.Prelude.Float.{Float}
use code_co_driver.Prelude.Dict.{Dict, get, get_or, get-put}
use code_co_driver.Prelude.Members.{has_text, has_text-append, not-has_text, IsDistinct-append_new}
use code_co_driver.Skills.Registry.{
  Skill, SkillError, zero_skill, Registry, new_registry, check_prompts, validate, normal_skill,
  store_skill, register, get_skill, list_skills,
}
use code_co_driver.Skills.Router.{
  RouteInput, RouteResult, RouteError, best_skill, route_scored, route_explicit, route,
  general_skill, filled_registry, route_score,
}

-- `Validate` found no error in the templates, under some name of the skill.
pub record IsAccepted (s : Skill) : Type 0 where
  pub name : String
  pub checked : check_prompts name s.prompts ≡ none

-- The order lists each key of the map once, and each skill is accepted and stored under its name.
pub record IsRegistry (r : Registry) : Type 0 where
  pub distinct : IsDistinct r.order
  pub listed : (name : String) → has_text name r.order ≡ is_some (get r.skills name)
  pub accepted :
      (name : String) (s : Skill) → get r.skills name ≡ some s → IsAccepted s × (s.name ≡ name)

store_skill-IsRegistry :
    (r : Registry) (s : Skill) → IsRegistry r → IsAccepted s → IsRegistry (store_skill r s)
unfolding store_skill
store_skill-IsRegistry r s i a = record {
  distinct = elim (Bool-cases (is_some (get r.skills s.name))) [
    | inl e ↦ rw e i.distinct
    | inr e ↦ rw e (
        IsDistinct-append_new s.name r.order i.distinct
          (not-has_text s.name r.order (i.listed s.name ∙ e)))
  ];
  listed = λ name. elim (Bool-cases (is_some (get r.skills s.name))) [
    | inl e ↦ rw (e, get-put r.skills s.name name s) (kept name e)
    | inr e ↦
        rw (e, get-put r.skills s.name name s, has_text-append name s.name r.order) (added name)
  ];
  accepted = λ name t g. elim (Bool-cases (s.name == name)) [
    | inl e ↦
        (let g' : some s ≡ some t = rw (get-put r.skills s.name name s, e) at g in
          subst (λ t'. IsAccepted t' × (t'.name ≡ name)) (some-injective s t g')
            (a, (eq_iff s.name name).0 e))
    | inr e ↦
        (let g' : get r.skills name ≡ some t = rw (get-put r.skills s.name name s, e) at g in
          i.accepted name t g')
  ];
}
  where
    kept :
        (name : String)
        → is_some (get r.skills s.name) ≡ true
        → has_text name r.order ≡ is_some (if s.name == name then some s else get r.skills name)
    kept name e = elim (Bool-cases (s.name == name)) [
      | inl b ↦
          rw b (
            i.listed name ∙ ap (λ n. is_some (get r.skills n)) (sym ((eq_iff s.name name).0 b)) ∙ e)
      | inr b ↦ rw b (i.listed name)
    ]

    added :
        (name : String)
        → (s.name == name || has_text name r.order)
          ≡ is_some (if s.name == name then some s else get r.skills name)
    added name = elim (Bool-cases (s.name == name)) [
      | inl b ↦ rw b refl
      | inr b ↦ rw b (i.listed name)
    ]

validate-IsAccepted : (s : Skill) → validate s ≡ none → IsAccepted (normal_skill s)
unfolding validate normal_skill
validate-IsAccepted s h = elim (Bool-cases (is_empty (trim_space s.name))) [
  | inl b ↦ (let h' = rw (b, validate) at h in grind arith)
  | inr b ↦ record { name = trim_space s.name; checked = rw b at h }
]

pub register-IsRegistry :
    (r : Registry) (s : Skill)
    → IsRegistry r
    → IsRegistry (register r s).1
      × (((e : SkillError) × (validate s ≡ some e) × (register r s ≡ (some e, r)))
          ⊎ ((validate s ≡ none)
              × ((register r s).0 ≡ none)
              × (get_skill (register r s).1 s.name ≡ some (normal_skill s))))
unfolding register get_skill store_skill normal_skill
register-IsRegistry r s i = elim (Option-cases (validate s)) [
  | inr (e, b) ↦ rw (b, register) (i, inl (e, refl, refl))
  | inl b ↦
      rw (b, register)
        (
          store_skill-IsRegistry r (normal_skill s) i (validate-IsAccepted s b),
          inr (
            refl,
            refl,
            get-put r.skills (trim_space s.name) (trim_space s.name) (normal_skill s)
                ∙ ap (λ b. if b then some (normal_skill s) else get r.skills (trim_space s.name))
                    (eq_refl (trim_space s.name)),
          ),
        )
]

pub new_registry-IsRegistry : IsRegistry new_registry
unfolding get
new_registry-IsRegistry = record {
  distinct = tt;
  listed = λ name. refl;
  accepted = λ name s g. (let g' : none ≡ some s = g in grind arith);
}

zero_skill-IsAccepted : IsAccepted zero_skill
unfolding check_prompts
zero_skill-IsAccepted = record { name = ""; checked = refl }

general_skill-IsAccepted : IsAccepted general_skill
unfolding check_prompts
general_skill-IsAccepted = record { name = ""; checked = refl }

get_or-IsAccepted :
    (name : String) (m : Dict Skill)
    → ((s : Skill) → get m name ≡ some s → IsAccepted s × (s.name ≡ name))
    → IsAccepted (get_or m name zero_skill)
unfolding get get_or
get_or-IsAccepted name [] stored = zero_skill-IsAccepted
get_or-IsAccepted name ((k, s) ∷ m) stored = elim (Bool-cases (k == name)) [
  | inl e ↦ rw (e, get_or) (stored s (rw (e, get) refl)).0
  | inr e ↦ rw (e, get_or) (get_or-IsAccepted name m (λ t g. stored t (rw (e, get) g)))
]

get_skill-IsAccepted :
    (r : Registry) (name : String) (s : Skill)
    → IsRegistry r
    → get_skill r name ≡ some s
    → IsAccepted s
unfolding get_skill
get_skill-IsAccepted r name s i h = (i.accepted (trim_space name) s h).0

list_skills-IsAccepted : (r : Registry) → IsRegistry r → All IsAccepted (list_skills r)
unfolding list_skills
list_skills-IsAccepted r i = go r.order
  where
    go :
        (names : List String) → All IsAccepted (map (λ name. get_or r.skills name zero_skill) names)
    go [] = tt
    go (name ∷ names) = (get_or-IsAccepted name r.skills (i.accepted name), go names)

module _ {F : Type 0} (f : Float F) (u : Unicode) (path_match : String → String → Bool) where
  best_skill-IsAccepted :
      (input : RouteInput F) (skills : List Skill) (best : Skill) (score : F) (scores : Dict F)
      → IsAccepted best
      → All IsAccepted skills
      → IsAccepted (best_skill f u path_match input best score scores skills).0.0
  unfolding best_skill
  best_skill-IsAccepted input [] best score scores b a = b
  best_skill-IsAccepted input (s ∷ ss) best score scores b a =
      best_skill-IsAccepted input ss _ _ _
        (elim (Bool-cases (f.lt score (route_score f u path_match s input))) [
          | inl e ↦ rw e a.0
          | inr e ↦ rw e b
        ])
        a.1

  route_scored-IsAccepted :
      (r : Registry) (input : RouteInput F)
      → IsRegistry r
      → All IsAccepted (route_scored f u path_match r input).skills
  unfolding route_scored
  route_scored-IsAccepted r input i =
      elim (Bool-cases (
        f.lt (f.lit 0 0)
          (best_skill f u path_match input zero_skill (f.lit 0 0) [] (list_skills r)).0.1)) [
            | inl e ↦ rw e (
              best_skill-IsAccepted input (list_skills r) zero_skill (f.lit 0 0) []
                  zero_skill-IsAccepted (list_skills-IsAccepted r i),
              tt,
            )
            | inr e ↦ rw e (
              general (get_skill r "general") (λ s g. get_skill-IsAccepted r "general" s i g),
              tt,
            )
          ]
    where
      general :
          (g : Option Skill)
          → ((s : Skill) → g ≡ some s → IsAccepted s)
          → IsAccepted (elim g [ none ↦ general_skill | some s ↦ s ])
      general none k = general_skill-IsAccepted
      general (some s) k = k s refl

  filled_registry-IsRegistry :
      (r : Registry) (skills : List Skill) → IsRegistry r → IsRegistry (filled_registry r skills)
  unfolding filled_registry
  filled_registry-IsRegistry r [] i = (register-IsRegistry r general_skill i).0
  filled_registry-IsRegistry r (s ∷ ss) i = i

  -- The skills of an answer of the router.
  abbrev pub RoutedToAccepted : Outcome RouteError (RouteResult F) → Type 0
  RoutedToAccepted (err e) = Unit
  RoutedToAccepted (ok result) = All IsAccepted result.skills

  route_explicit-IsAccepted :
      (name : String) (found : Option Skill)
      → ((s : Skill) → found ≡ some s → IsAccepted s)
      → RoutedToAccepted (route_explicit f u path_match name found)
  unfolding route_explicit
  route_explicit-IsAccepted name none k = tt
  route_explicit-IsAccepted name (some s) k = (k s refl, tt)

  -- The skills that a task is routed to by a registry are accepted ones.
  pub route-IsAccepted :
      (r : Registry) (input : RouteInput F)
      → IsRegistry r
      → RoutedToAccepted (route f u path_match r input).0
  unfolding route
  route-IsAccepted r input i = elim (Bool-cases (is_empty (trim_space input.task.skill_name))) [
    | inl e ↦ rw e (
        route_scored-IsAccepted (filled_registry r (list_skills r)) input
          (filled_registry-IsRegistry r (list_skills r) i))
    | inr e ↦ rw e (
        route_explicit-IsAccepted (trim_space input.task.skill_name) _
          (λ s g. get_skill-IsAccepted _ _ s (filled_registry-IsRegistry r (list_skills r) i) g))
  ]
