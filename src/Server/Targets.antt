-- ===== src/Server/Targets.antt =====
-- crates/server/src/targets.rs: the manifest of targets and the registry that is built from it. The
-- reading of the file and the JSON decoder are parameters of `load`.
pub mod Registry
use soro_fuzz.Base.{
  Bool, List, [], ◌∷◌, ◌++◌, Option, none, some, String, string_eq, concat, is_blank, filter_map,
  if◌then◌else◌,
}
use soro_fuzz.Base.Dict.{lookup, insert}
use soro_fuzz.Base.Results.{Result, ok, err, ◌>>=◌, map_err}

pub record TargetMethodParam : Type 0 where
  pub name : String
  pub ty : String

pub record TargetMethod : Type 0 where
  pub name : String
  pub params : List TargetMethodParam

pub record InvariantInfo : Type 0 where
  pub id : String
  pub name : String
  pub description : String

pub record Target : Type 0 where
  pub id : String
  pub name : String
  pub contract_name : String
  pub methods : List TargetMethod
  pub available_invariants : List InvariantInfo
  pub fuzz_target_name : String
  pub known_buggy : Bool

pub record Manifest : Type 0 where
  pub targets : List Target

-- The errors of the file system and of the decoder are of types of their own.
pub data TargetsError (IoError JsonError : Type 0) : Type 0 where
  read : String → IoError → TargetsError IoError JsonError
  parse : String → JsonError → TargetsError IoError JsonError
  invalid : String → TargetsError IoError JsonError

pub record TargetRegistry : Type 0 where
  pub by_id : List (String × Target)
  pub order : List String

module _ {IoError JsonError : Type 0} where
  -- The loop of `from_targets` over the targets that are left.
  unfoldable pub from_targets_loop :
      List (String × Target)
      → List String
      → List Target
      → Result (TargetsError IoError JsonError) TargetRegistry
  unfolding lookup insert
  from_targets_loop by_id order [] = ok (record { by_id = by_id; order = order })
  from_targets_loop by_id order (target ∷ targets) =
      let rest =
        from_targets_loop (insert target.id target by_id) (order ++ target.id ∷ []) targets in
      if is_blank target.id
      then err (invalid "target with empty id")
      else if is_blank target.fuzz_target_name
      then err (invalid (concat ("target `" ∷ target.id ∷ "` has an empty fuzz_target_name" ∷ [])))
      else elim (lookup target.id by_id) [
        | some _ ↦ err (invalid (concat ("duplicate target id `" ∷ target.id ∷ "`" ∷ [])))
        | none ↦ rest
      ]

  unfoldable pub from_targets : List Target → Result (TargetsError IoError JsonError) TargetRegistry
  unfolding from_targets_loop
  from_targets targets = from_targets_loop [] [] targets

  unfoldable pub load :
      (String → Result IoError String)
      → (String → Result JsonError Manifest)
      → String
      → Result (TargetsError IoError JsonError) TargetRegistry
  unfolding from_targets
  load read_to_string from_str manifest_path = do
    raw ← map_err (read manifest_path) (read_to_string manifest_path)
    manifest ← map_err (parse manifest_path) (from_str raw)
    from_targets manifest.targets

unfoldable pub list : TargetRegistry → List Target
unfolding lookup
list registry = filter_map (λ id. lookup id registry.by_id) registry.order

unfoldable pub get : String → TargetRegistry → Option Target
unfolding lookup
get id registry = lookup id registry.by_id
