-- ===== src/Watchers/ConfigFiles/Found.antt =====
-- The files of a directory that is given by its parts.
use go_sarah.Shared.{
  ◌≤◌, ◌≡◌, refl, sym, ap, subst, ◌∙◌, ◌≢◌, Bool, Option, none, some, List, [], ◌∷◌, ◌++◌,
  append-nil, append_assoc, arith, if◌then◌else◌, nat_eq, length, length-append, All, Text, codes,
  text_beq, text_eq, Lacks, Lacks-append, Result, ok,
}
use go_sarah.Errors.{Error}
use go_sarah.Paths.{slash, dot, abs, join, split, dir_of, ext, trim_suffix, clean, path_of, joined}
use go_sarah.Paths.Parts.{IsPart}
use go_sarah.Paths.Clean.{abs_path, clean_doubled}
use go_sarah.Paths.Files.{
  file_path, abs-file_path, clean-file_path, split-file_path, dir_of-closed, ext-append,
  trim_suffix-append,
}
use go_sarah.Watchers.ConfigFiles.{
  PathError, yaml_file, json_file, Candidate, config_file_candidates, PluginConfigFile, config_file,
  find_from, find_plugin_config_file, stat, of_type, abs_path_to_file, plain_path_to_file,
}

-- The extensions that the program knows.
pub data IsCandidate : Candidate → Type 0 where
  yaml : IsCandidate (record { ext = codes ".yaml"; file_type = yaml_file })
  yml : IsCandidate (record { ext = codes ".yml"; file_type = yaml_file })
  json : IsCandidate (record { ext = codes ".json"; file_type = json_file })

pub candidates : All IsCandidate config_file_candidates
candidates = (yaml, (yml, (json, tt)))

-- An extension is a dot and what stands behind it, without a dot or a slash.
record IsExtension (e : Text) : Type 0 where
  pub rest : Text
  pub shape : e ≡ dot ∷ rest
  pub no_dot : Lacks dot rest
  pub no_slash : Lacks slash rest
  pub long : 3 ≤ length rest

candidate-IsExtension : (c : Candidate) → IsCandidate c → IsExtension c.ext
candidate-IsExtension _ yaml = record {
  rest = codes "yaml";
  shape = refl;
  no_dot = omega arith;
  no_slash = omega arith;
  long = omega arith;
}
candidate-IsExtension _ yml = record {
  rest = codes "yml";
  shape = refl;
  no_dot = omega arith;
  no_slash = omega arith;
  long = omega arith;
}
candidate-IsExtension _ json = record {
  rest = codes "json";
  shape = refl;
  no_dot = omega arith;
  no_slash = omega arith;
  long = omega arith;
}

pub config_file-IsPart :
    (id : Text) (c : Candidate) → IsCandidate c → Lacks slash id → IsPart (id ++ c.ext)
config_file-IsPart id c k h =
    let e = candidate-IsExtension c k in
    let long : 4 ≤ length (id ++ c.ext) =
      omega (arith, e.long, ap length e.shape, length-append id c.ext) in
    record {
      lacks =
          Lacks-append slash id c.ext h (subst (Lacks slash) (sym e.shape) ((λ x. cc), e.no_slash));
      not_empty = λ x. omega (arith, long, ap length x);
      not_dot = λ x. omega (arith, long, ap length x);
      not_dots = λ x. omega (arith, long, ap length x);
    }

-- `Join` of a directory and a file.
pub join-abs_path :
    (ps : List Text) (f : Text) → All IsPart ps → IsPart f → join (abs_path ps) f ≡ file_path ps f
unfolding join joined path_of
join-abs_path ps [] h k = absurd (k.not_empty refl)
join-abs_path [] (c ∷ f) h k =
    ap (λ t. clean (slash ∷ slash ∷ t)) (sym (append-nil (c ∷ f)))
    ∙ clean_doubled (c ∷ f) [] (k, tt)
    ∙ ap (λ t. slash ∷ t) (append-nil (c ∷ f))
join-abs_path (p ∷ ps) (c ∷ f) h k = clean-file_path (p ∷ ps) (c ∷ f) h k

-- The file of a plugin with one of the extensions.
abbrev pub the_file : List Text → Text → Candidate → PluginConfigFile
the_file ps id c = record {
  id = id;
  abs_path = file_path ps (id ++ c.ext);
  abs_dir = abs_path ps;
  file_type = c.file_type;
}

config_file-the_file :
    (ps : List Text) (id : Text) (c : Candidate)
    → IsCandidate c
    → All IsPart ps
    → Lacks slash id
    → config_file id (file_path ps (id ++ c.ext)) c.file_type ≡ the_file ps id c
unfolding config_file
config_file-the_file ps id c k h l =
    let part = config_file-IsPart id c k l in
    ap
      (λ d. record {
        id = id;
        abs_path = file_path ps (id ++ c.ext);
        abs_dir = d;
        file_type = c.file_type;
      })
      (ap (λ t. dir_of t.0) (split-file_path ps (id ++ c.ext) part.lacks) ∙ dir_of-closed ps h)

-- The first file that exists, in the order of the extensions.
unfoldable pub first_existing :
    (Text → Bool) → List Text → Text → List Candidate → Option PluginConfigFile
first_existing exists ps id [] = none
first_existing exists ps id (c ∷ cs) =
    let rest = first_existing exists ps id cs in
    if exists (file_path ps (id ++ c.ext)) then some (the_file ps id c) else rest

-- A path with an extension.
typed :
    {r : Result PathError PluginConfigFile}
    → (path e : Text) → ext path ≡ e
    → e ≢ []
    → of_type path e config_file_candidates ≡ r
    → abs_path_to_file (ok path) ≡ r
unfolding abs_path_to_file
typed path [] shape h eq = absurd (h refl)
typed path (c ∷ e) shape h eq = rw (shape, eq)

module _ (cwd : Result Error Text) (exists : Text → Bool) (ps : List Text) (id : Text) where
  abs_joined :
      (c : Candidate)
      → IsCandidate c
      → All IsPart ps
      → Lacks slash id
      → abs cwd (join (abs_path ps) (id ++ c.ext)) ≡ ok (file_path ps (id ++ c.ext))
  abs_joined c k h l =
      let part = config_file-IsPart id c k l in
      ap (abs cwd) (join-abs_path ps (id ++ c.ext) h part)
      ∙ abs-file_path cwd ps (id ++ c.ext) h part

  find_from-first_existing :
      (cs : List Candidate)
      → All IsCandidate cs
      → All IsPart ps
      → Lacks slash id
      → find_from cwd exists (abs_path ps) id cs ≡ first_existing exists ps id cs
  unfolding find_from first_existing stat
  find_from-first_existing [] ks h l = refl
  find_from-first_existing (c ∷ cs) (k, ks) h l =
      ap (stat cwd exists id c (find_from cwd exists (abs_path ps) id cs)) (abs_joined c k h l)
      ∙ rw (config_file-the_file ps id c k h l, find_from-first_existing cs ks h l)

  pub find_plugin_config_file-first_existing :
      All IsPart ps
      → Lacks slash id
      → find_plugin_config_file cwd exists (abs_path ps) id
        ≡ first_existing exists ps id config_file_candidates
  unfolding find_plugin_config_file
  find_plugin_config_file-first_existing h l =
      find_from-first_existing config_file_candidates candidates h l

  of_type-candidate :
      (c : Candidate)
      → IsCandidate c
      → of_type (file_path ps (id ++ c.ext)) c.ext config_file_candidates
        ≡ ok (
            config_file
              (trim_suffix (split (file_path ps (id ++ c.ext))).1 c.ext)
              (file_path ps (id ++ c.ext))
              c.file_type)
  unfolding of_type text_beq
  of_type-candidate _ yaml = refl
  of_type-candidate _ yml = refl
  of_type-candidate _ json = refl

  ext-file_path : (c : Candidate) → IsCandidate c → ext (file_path ps (id ++ c.ext)) ≡ c.ext
  ext-file_path c k =
      let e = candidate-IsExtension c k in
      rw e.shape (
        ap ext (sym (append_assoc (path_of ps) (slash ∷ id) (dot ∷ e.rest)))
        ∙ ext-append (path_of ps ++ slash ∷ id) e.rest e.no_dot e.no_slash)

  trimmed :
      (c : Candidate)
      → IsCandidate c
      → Lacks slash id
      → trim_suffix (split (file_path ps (id ++ c.ext))).1 c.ext ≡ id
  trimmed c k l =
      let e = candidate-IsExtension c k in
      let part = config_file-IsPart id c k l in
      ap (λ t. trim_suffix t.1 c.ext) (split-file_path ps (id ++ c.ext) part.lacks)
      ∙ rw e.shape (trim_suffix-append id dot e.rest)

  -- The path of such a file is taken apart to the same file.
  pub plain_path_to_file-the_file :
      (c : Candidate)
      → IsCandidate c
      → All IsPart ps
      → Lacks slash id
      → plain_path_to_file cwd (file_path ps (id ++ c.ext)) ≡ ok (the_file ps id c)
  unfolding plain_path_to_file abs_path_to_file
  plain_path_to_file-the_file c k h l =
      let part = config_file-IsPart id c k l in
      let e = candidate-IsExtension c k in
      let path = file_path ps (id ++ c.ext) in
      ap abs_path_to_file (abs-file_path cwd ps (id ++ c.ext) h part)
      ∙ typed path c.ext (ext-file_path c k) (λ x. cc (sym e.shape ∙ x)) (of_type-candidate c k)
      ∙ rw (trimmed c k l, config_file-the_file ps id c k h l)
