-- ===== src/Improvements/Surfaces.antt =====
-- Which isolated runtimes a candidate's files need: `candidate_runtime_surfaces` and
-- `unsupported_candidate_surfaces` of app/improvements/candidates.py.
use text.Mathlib.Text.{starts_with}
use google_connector_app.Prelude.{
  String, Bool, true, false, not, ◌||◌, ◌≡◌, refl, List, [], ◌∷◌, ◌++◌, any, keep, contains,
  if◌then◌else◌,
}

pub data Surface : Type 0 where
  frontend api worker unclassified : Surface

-- The `if` chain over one path.
unfoldable pub surface_of : String → Surface
surface_of path =
    if starts_with path "web/" || starts_with path "mobile/"
    then frontend
    else if starts_with path "app/api/"
        || contains ("app/api/main.py" ∷ "app/runs/planner.py" ∷ "app/runs/repository.py" ∷ []) path
    then api
    else if starts_with path "app/"
    then worker
    else unclassified

abbrev is_frontend : Surface → Bool
is_frontend frontend = true
is_frontend s = false

abbrev is_api : Surface → Bool
is_api api = true
is_api s = false

abbrev is_worker : Surface → Bool
is_worker worker = true
is_worker s = false

abbrev named : Bool → String → List String
named present name = if present then name ∷ [] else []

-- `sorted(surfaces or {"registry"})`
abbrev or_registry : List String → List String
or_registry [] = "registry" ∷ []
or_registry (s ∷ surfaces) = s ∷ surfaces

unfoldable pub candidate_runtime_surfaces : List String → List String
unfolding surface_of
candidate_runtime_surfaces paths = or_registry (
    named (any (λ p. is_api (surface_of p)) paths) "api"
    ++ named (any (λ p. is_frontend (surface_of p)) paths) "frontend"
    ++ named (any (λ p. is_worker (surface_of p)) paths) "worker")

abbrev supported : List String
supported = "api" ∷ "frontend" ∷ "registry" ∷ "worker" ∷ []

unfoldable pub unsupported_candidate_surfaces : List String → List String
unfolding candidate_runtime_surfaces
unsupported_candidate_surfaces paths =
    keep (λ s. not (contains supported s)) (candidate_runtime_surfaces paths)

none_unsupported :
    (a f w : Bool)
    → keep
        (λ s. not (contains supported s))
        (or_registry (named a "api" ++ named f "frontend" ++ named w "worker"))
      ≡ []
none_unsupported true true true = refl
none_unsupported true true false = refl
none_unsupported true false true = refl
none_unsupported true false false = refl
none_unsupported false true true = refl
none_unsupported false true false = refl
none_unsupported false false true = refl
none_unsupported false false false = refl

-- No set of file paths has an unsupported surface: every surface that the files are classified into
-- is one of the supported ones.
pub unsupported_candidate_surfaces-none :
    (paths : List String) → unsupported_candidate_surfaces paths ≡ []
unfolding unsupported_candidate_surfaces
unsupported_candidate_surfaces-none paths =
    none_unsupported (any (λ p. is_api (surface_of p)) paths)
      (any (λ p. is_frontend (surface_of p)) paths) (any (λ p. is_worker (surface_of p)) paths)
