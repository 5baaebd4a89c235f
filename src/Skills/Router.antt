-- ===== src/Skills/Router.antt =====
-- internal/skills/router.go: the choice of a skill for a task. `path.Match` is a parameter, which is
-- false where it answers an error.
use code_co_driver.Prelude.{
  if◌then◌else◌, any, Outcome, ok, err, String, Bool, false, ◌&&◌, ◌||◌, not, Option, none, some,
  List, [], ◌∷◌, ◌==◌,
}
use code_co_driver.Prelude.Text.{
  Unicode, trim_space, to_lower, is_empty, contains, fields_func, has_prefix, join,
}
use code_co_driver.Prelude.Slices.{trim_prefix, trim_suffix, has_suffix, replace_all}
use code_co_driver.Prelude.Float.{Float}
use code_co_driver.Prelude.Dict.{Dict, put}
use code_co_driver.Domain.{Task, RepositoryFile, Repository, MemoryEntry}
use code_co_driver.Store.EditDistance.{runes}
use code_co_driver.Store.Tokens.{add_words, add_bigrams}
use code_co_driver.Skills.Registry.{Skill, Registry, zero_skill, get_skill, list_skills, register}

pub record RouteInput (F : Type 0) : Type 0 where
  pub task : Task
  pub repository : Repository
  pub files : List RepositoryFile
  pub memories : List (MemoryEntry F)

-- `Reason` holds the score of the chosen skill where it is not a fixed text.
pub data RouteReason (F : Type 0) : Type 0 where
  explicitly_selected fallback_general : RouteReason F
  matched : F → RouteReason F

pub record RouteResult (F : Type 0) : Type 0 where
  pub primary_skill : String
  pub skills : List Skill
  pub workflow : String
  pub reason : RouteReason F
  pub scores : Dict F

pub data RouteError : Type 0 where
  unknown_skill : String → RouteError

-- `skillTokens`: the words of three bytes or more and the pairs with a Han character, each once.
unfoldable pub skill_tokens : Unicode → String → List String
unfolding add_words add_bigrams
skill_tokens u value =
    let lower = to_lower u value in
    let words = fields_func (λ r. not (u.is_letter r) && not (u.is_number r)) lower in
    add_bigrams u (add_words [] words) (runes lower)

-- `matchPathPattern`
unfoldable pub match_path_pattern : (String → String → Bool) → String → String → Bool
match_path_pattern path_match pattern file_path =
    let pattern = trim_space pattern in
    let rest = trim_prefix pattern "**/" in
    let prefix = trim_suffix pattern "/**" in
    if is_empty pattern || is_empty file_path
    then false
    else if has_prefix pattern "**/"
    then has_suffix file_path rest || contains file_path (join ("/" ∷ rest ∷ []) "")
    else if has_suffix pattern "/**"
    then file_path == prefix || has_prefix file_path (join (prefix ∷ "/" ∷ []) "")
    else path_match pattern file_path

-- `MatchesPath`
unfoldable pub matches_path : Unicode → (String → String → Bool) → Skill → String → Bool
unfolding match_path_pattern
matches_path u path_match s path =
    let normalized = to_lower u (replace_all path "\\" "/") in
    any (λ pattern. match_path_pattern path_match (to_lower u pattern) normalized) s.path_patterns

abbrev pub standard_workflow : String → String
standard_workflow workflow = if is_empty workflow then "standard_agent_loop" else workflow

abbrev pub general_skill : Skill
general_skill = record zero_skill { name = "general"; workflow = "standard_agent_loop" }

-- The registry that `Route` works with: it is given a skill where it has none.
unfoldable pub filled_registry : Registry → List Skill → Registry
filled_registry r [] = (register r general_skill).1
filled_registry r (s ∷ ss) = r

module _ {F : Type 0} (f : Float F) (u : Unicode) (path_match : String → String → Bool) where
  -- The loop over the tokens of a keyword that is not in the text as a whole.
  unfoldable pub token_scores : List String → F → List String → F
  token_scores text score [] = score
  token_scores text score (token ∷ tokens) =
      token_scores text (if any (λ c. token == c) text then f.add score (f.lit 5 1) else score)
        tokens

  -- The loop over the keywords.
  unfoldable pub keyword_scores : String → F → List String → F
  unfolding token_scores
  keyword_scores text score [] = score
  keyword_scores text score (keyword ∷ keywords) =
      let lower = to_lower u keyword in
      keyword_scores text
        (if contains text lower
          then f.add score (f.lit 2 0)
          else token_scores (skill_tokens u text) score (skill_tokens u lower))
        keywords

  -- Whether a memory counts as a hit.
  unfoldable pub memory_hit : List String → MemoryEntry F → Bool
  memory_hit keywords m =
      let text = to_lower u (join (m.title ∷ m.summary ∷ m.content ∷ []) " ") in
      any (λ keyword. contains text (to_lower u keyword)) keywords

  -- `routeScore`
  unfoldable pub route_score : Skill → RouteInput F → F
  unfolding keyword_scores memory_hit
  route_score s input =
      let text = to_lower u (join (input.task.title ∷ input.task.description ∷ []) " ") in
      let words = keyword_scores text (f.lit 0 0) s.keywords in
      let paths =
        if any (λ (file : RepositoryFile). matches_path u path_match s file.path) input.files
        then f.add words (f.lit 15 1)
        else words in
      if s.name == "general"
      then f.lit 0 0
      else if f.lt (f.lit 0 0) paths && any (memory_hit s.keywords) input.memories
      then f.add paths (f.lit 5 1)
      else paths

  -- The loop over the skills: the best so far, its score, and the scores.
  unfoldable pub best_skill : RouteInput F → Skill → F → Dict F → List Skill → (Skill × F) × Dict F
  unfolding route_score
  best_skill input best best_score scores [] = ((best, best_score), scores)
  best_skill input best best_score scores (s ∷ ss) =
      let score = route_score s input in
      let better = f.lt best_score score in
      best_skill input (if better then s else best) (if better then score else best_score)
        (put scores s.name score) ss

  -- The part of `Route` for a skill that the task names.
  unfoldable pub route_explicit : String → Option Skill → Outcome RouteError (RouteResult F)
  route_explicit name none = err (unknown_skill name)
  route_explicit name (some s) = ok (record {
    primary_skill = s.name;
    skills = s ∷ [];
    workflow = standard_workflow s.workflow;
    reason = explicitly_selected;
    scores = (s.name, f.lit 1 0) ∷ [];
  })

  -- The part of `Route` that scores the skills.
  unfoldable pub route_scored : Registry → RouteInput F → RouteResult F
  unfolding best_skill
  route_scored r input =
      let ((best, best_score), scores) =
        best_skill input zero_skill (f.lit 0 0) [] (list_skills r) in
      let general : Skill = elim (get_skill r "general") [ none ↦ general_skill | some s ↦ s ] in
      let chosen = if f.lt (f.lit 0 0) best_score then best else general in
      record {
        primary_skill = chosen.name;
        skills = chosen ∷ [];
        workflow = standard_workflow chosen.workflow;
        reason = if f.lt (f.lit 0 0) best_score then matched best_score else fallback_general;
        scores = scores;
      }

  -- `Route`, with the registry behind it.
  unfoldable pub route : Registry → RouteInput F → Outcome RouteError (RouteResult F) × Registry
  unfolding route_explicit route_scored filled_registry
  route r input =
      let r' = filled_registry r (list_skills r) in
      let explicit = trim_space input.task.skill_name in
      (
        if is_empty explicit
            then ok (route_scored r' input)
            else route_explicit explicit (get_skill r' explicit),
        r',
      )
