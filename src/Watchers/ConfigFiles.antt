-- ===== src/Watchers/ConfigFiles.antt =====
-- watchers/filewatcher.go: the files of the plugins' configurations, and `Read`. `cwd` is what `os.Getwd`
-- answers and `exists` whether `os.Stat` succeeds. A bot type is ASCII.
pub mod Found
pub mod Reading
mod Examples
use go_sarah.Shared.{
  ℕ, zero, suc, ◌+◌, ◌-◌, ◌*◌, ◌/◌, ◌%◌, ◌≤◌, ◌<◌, ◌≡◌, refl, sym, ap, subst, ◌∙◌, fun_ext, ◌≢◌,
  ◌↔◌, ◌⊎◌, inl, inr, Bool, true, false, not, ◌&&◌, ◌||◌, Option, none, some, List, [], ◌∷◌, ◌++◌,
  map, append-nil, append_assoc, map-append, reverse, reverse_aux, reverse-reverse, arith,
  add_assoc, add_comm, add-zero, ltb, leb, nat_beq, if◌then◌else◌, nat_beq_iff, if_same, Bool-cases,
  Option-cases, is_nil, Eq, ◌==◌, nat_eq, ==_iff, ==_self, length, get_elem?, set, index_func, keep,
  any, tally, tally-append, tally_middle, length-append, keep-append, All, All-append, Text, codes,
  text_beq, text_eq, is_empty, Lacks, Lacks-append, split_unique, Map, lookup, insert, delete,
  lookup-insert, lookup-delete, Result, ok, err, Outcome, returns, panics, is_space, trim_left,
  trim_space, IsTrimmed, Blank, trim_space-surrounded, is_empty-IsTrimmed, lower, to_lower,
}
use go_sarah.Errors.{Error, plain, wrapped, config_not_found}
use go_sarah.Config.{Read}
use go_sarah.Paths.{abs, join, split, dir_of, ext, trim_suffix}

pub data FileType : Type 0 where
  yaml_file json_file : FileType

-- An element of `configFileCandidates`.
pub record Candidate : Type 0 where
  pub ext : Text
  pub file_type : FileType

abbrev pub config_file_candidates : List Candidate
config_file_candidates =
    record { ext = codes ".yaml"; file_type = yaml_file }
    ∷ record { ext = codes ".yml"; file_type = yaml_file }
    ∷ record { ext = codes ".json"; file_type = json_file }
    ∷ []

pub record PluginConfigFile : Type 0 where
  pub id : Text
  pub abs_path : Text
  pub abs_dir : Text
  pub file_type : FileType

pub data PathError : Type 0 where
  no_abs_path : Error → PathError
  unable_to_determine_config_file_format unsupported_config_file_format : PathError

-- The file of an absolute path.
unfoldable pub config_file : Text → Text → FileType → PluginConfigFile
config_file id path t = record {
  id = id;
  abs_path = path;
  abs_dir = dir_of (split path).0;
  file_type = t;
}

module _ (cwd : Result Error Text) where
  -- The loop of `findPluginConfigFile`.
  stat :
      (Text → Bool)
      → Text
      → Candidate
      → Option PluginConfigFile
      → Result Error Text
      → Option PluginConfigFile
  stat exists id c rest (err e) = rest
  stat exists id c rest (ok path) =
      if exists path then some (config_file id path c.file_type) else rest

  unfoldable pub find_from : (Text → Bool) → Text → Text → List Candidate → Option PluginConfigFile
  unfolding stat
  find_from exists dir id [] = none
  find_from exists dir id (c ∷ cs) =
      stat exists id c (find_from exists dir id cs) (abs cwd (join dir (id ++ c.ext)))

  unfoldable pub find_plugin_config_file : (Text → Bool) → Text → Text → Option PluginConfigFile
  unfolding find_from
  find_plugin_config_file exists dir id = find_from exists dir id config_file_candidates

-- The loop of `plainPathToFile`, for an absolute path with the extension `e`.
unfoldable pub of_type : Text → Text → List Candidate → Result PathError PluginConfigFile
of_type path e [] = err unsupported_config_file_format
of_type path e (c ∷ cs) =
    let rest = of_type path e cs in
    if e == c.ext then ok (config_file (trim_suffix (split path).1 e) path c.file_type) else rest

abs_path_to_file : Result Error Text → Result PathError PluginConfigFile
unfolding of_type
abs_path_to_file (err e) = err (no_abs_path e)
abs_path_to_file (ok path) =
    if is_empty (ext path)
    then err unable_to_determine_config_file_format
    else of_type path (ext path) config_file_candidates

-- `plainPathToFile`.
unfoldable pub plain_path_to_file : Result Error Text → Text → Result PathError PluginConfigFile
unfolding abs_path_to_file
plain_path_to_file cwd path = abs_path_to_file (abs cwd path)

-- What the decoder of a type of files does to the struct, with its error.
abbrev pub Decode : Type 0 → Type 0
Decode V = FileType → Text → V → V × Option Error

open_failed : Text → Error → Error
open_failed path e = wrapped (codes "failed to read configuration file at " ++ path) e

opened :
    {V : Type 0}
    → (Text → Option Error)
    → Decode V
    → Text
    → Text
    → V
    → Option PluginConfigFile
    → V × Option Error
unfolding open_failed
opened openable decode b id v none = (v, some (config_not_found b id))
opened openable decode b id v (some f) = elim (openable f.abs_path) [
  | some e ↦ (v, some (open_failed f.abs_path e))
  | none ↦ decode f.file_type f.abs_path v
]

-- `fileWatcher.Read`; `openable` is the error of `os.Open`.
unfoldable pub read :
    {V : Type 0}
    → Result Error Text
    → (Text → Bool)
    → (Text → Option Error)
    → Decode V
    → Text
    → Read V
unfolding opened
read cwd exists openable decode base b id v =
    opened openable decode b id v (find_plugin_config_file cwd exists (join base (to_lower b)) id)
