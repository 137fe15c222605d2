-- ===== src/Watchers/ConfigFiles/Reading.antt =====
-- `Read` and `plainPathToFile` on the files of a directory that is given by its parts.
use go_sarah.Shared.{
  ◌≡◌, refl, sym, ap, ◌∙◌, inl, inr, Bool, true, false, Option, none, some, List, [], ◌∷◌, ◌++◌,
  if◌then◌else◌, Bool-cases, nat_eq, All, All-append, Text, codes, text_eq, Lacks, Result, ok,
  to_lower,
}
use go_sarah.Errors.{Error, wrapped, config_not_found}
use go_sarah.Paths.{slash, join}
use go_sarah.Paths.Parts.{IsPart}
use go_sarah.Paths.Clean.{abs_path}
use go_sarah.Paths.Files.{file_path, file_path-abs_path}
use go_sarah.Watchers.ConfigFiles.{
  FileType, yaml_file, json_file, Candidate, config_file_candidates, PluginConfigFile,
  find_plugin_config_file, plain_path_to_file, Decode, open_failed, opened, read,
}
use go_sarah.Watchers.ConfigFiles.Found.{
  IsCandidate, candidates, the_file, first_existing, join-abs_path,
  find_plugin_config_file-first_existing, plain_path_to_file-the_file,
}

pub first_existing-the_file :
    (exists : Text → Bool) (ps : List Text) (id : Text) (cs : List Candidate) (f : PluginConfigFile)
    → All IsCandidate cs
    → first_existing exists ps id cs ≡ some f
    → (c : Candidate) × IsCandidate c × (f ≡ the_file ps id c)
unfolding first_existing
first_existing-the_file exists ps id [] f h e = cc
first_existing-the_file exists ps id (c ∷ cs) f (h, hs) e =
    elim (Bool-cases (exists (file_path ps (id ++ c.ext)))) [
      | inl found ↦ (c, h, cc)
      | inr missing ↦ first_existing-the_file exists ps id cs f hs (cc)
    ]

-- For an absolute directory without empty parts and an identifier without a slash: the path of the file that `findPluginConfigFile` finds is taken apart by `plainPathToFile` to the same file.
pub plain_path_to_file-find_plugin_config_file :
    (cwd : Result Error Text) (exists : Text → Bool) (ps : List Text) (id : Text)
    (f : PluginConfigFile)
    → All IsPart ps
    → Lacks slash id
    → find_plugin_config_file cwd exists (abs_path ps) id ≡ some f
    → plain_path_to_file cwd f.abs_path ≡ ok f
plain_path_to_file-find_plugin_config_file cwd exists ps id f h l found =
    let (c, k, same) =
      first_existing-the_file exists ps id config_file_candidates f candidates
        (sym (find_plugin_config_file-first_existing cwd exists ps id h l) ∙ found) in
    rw same (plain_path_to_file-the_file cwd exists ps id c k h l)

module _ {V : Type 0} (openable : Text → Option Error) (decode : Decode V) where
  -- A file is opened and decoded.
  abbrev pub decoded : FileType → Text → V → V × Option Error
  decoded t path v = elim (openable path) [
    | some e ↦ (v, some (wrapped (codes "failed to read configuration file at " ++ path) e))
    | none ↦ decode t path v
  ]

  -- The file with the first extension that exists, in the directory with the parts `dir`.
  abbrev pub read_first : (Text → Bool) → List Text → Text → Text → V → V × Option Error
  read_first exists dir b id v =
      let none_of : V × Option Error = (v, some (config_not_found b id)) in
      let with_json = decoded json_file (file_path dir (id ++ codes ".json")) v in
      let with_yml = decoded yaml_file (file_path dir (id ++ codes ".yml")) v in
      let with_yaml = decoded yaml_file (file_path dir (id ++ codes ".yaml")) v in
      if exists (file_path dir (id ++ codes ".yaml"))
      then with_yaml
      else if exists (file_path dir (id ++ codes ".yml"))
      then with_yml
      else if exists (file_path dir (id ++ codes ".json"))
      then with_json
      else none_of

  opened_if :
      (x : Bool) (f : PluginConfigFile) (r : Option PluginConfigFile) (b id : Text) (v : V)
      → opened openable decode b id v (if x then some f else r)
        ≡ (if x then decoded f.file_type f.abs_path v else opened openable decode b id v r)
  unfolding opened open_failed
  opened_if true f r b id v = refl
  opened_if false f r b id v = refl

  opened-first_existing :
      (exists : Text → Bool) (dir : List Text) (b id : Text) (v : V)
      → opened openable decode b id v (first_existing exists dir id config_file_candidates)
        ≡ read_first exists dir b id v
  unfolding opened first_existing
  opened-first_existing exists dir b id v =
      opened_if (exists (file_path dir (id ++ codes ".yaml"))) _ _ b id v
      ∙ ap
          (λ t.
            if exists (file_path dir (id ++ codes ".yaml"))
            then decoded yaml_file (file_path dir (id ++ codes ".yaml")) v
            else t)
          (opened_if (exists (file_path dir (id ++ codes ".yml"))) _ _ b id v
            ∙ ap
                (λ t.
                  if exists (file_path dir (id ++ codes ".yml"))
                  then decoded yaml_file (file_path dir (id ++ codes ".yml")) v
                  else t)
                (opened_if (exists (file_path dir (id ++ codes ".json"))) _ none b id v))

  -- For an absolute base directory without empty parts, a bot type that names a directory and an identifier without a slash: `Read` looks in the directory of the lower-cased bot type for the files with the extensions .yaml, .yml and .json, in this order, opens the first one that exists and decodes it by its extension; if there is none it changes nothing and fails with a ConfigNotFoundError, and if it cannot be opened it fails with the wrapped error.
  pub read-read_first :
      (cwd : Result Error Text) (exists : Text → Bool) (ps : List Text) (b id : Text) (v : V)
      → All IsPart ps
      → IsPart (to_lower b)
      → Lacks slash id
      → read cwd exists openable decode (abs_path ps) b id v
        ≡ read_first exists (ps ++ to_lower b ∷ []) b id v
  unfolding read
  read-read_first cwd exists ps b id v h k l =
      let dir : List Text = ps ++ to_lower b ∷ [] in
      let there : join (abs_path ps) (to_lower b) ≡ abs_path dir =
        join-abs_path ps (to_lower b) h k ∙ file_path-abs_path ps (to_lower b) in
      ap (λ d. opened openable decode b id v (find_plugin_config_file cwd exists d id)) there
      ∙ ap (opened openable decode b id v) (
          find_plugin_config_file-first_existing cwd exists dir id
            (All-append IsPart ps (to_lower b ∷ []) h (k, tt)) l)
      ∙ opened-first_existing exists dir b id v
