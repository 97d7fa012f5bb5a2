-- ===== src/Config.antt =====
-- internal/config/config.go: the loggers' levels, the resources of the pods, and the files that are
-- loaded. koanf, the file system and resource.MustParse are parameters.
pub mod Environment
use node_drain.Base.{
  ℕ, zero, suc, String, Bool, true, false, not, ◌&&◌, ◌||◌, ◌≡◌, refl, ◌⊎◌, inl, inr, ◌==◌, ◌<>◌,
}
use node_drain.Base.{if◌then◌else◌, if_intro, Error, msg, wrap, Result, ok, err, Exec}
use node_drain.Base.{Option, none, some, List, [], ◌∷◌, pure, attempt, fail, ◌>>=◌, ◌>>◌}
use node_drain.Base.{ap, eq_iff}
use node_drain.Cluster.Pods.{KubeResourceList, ResourceRequirements}

-- Logger
pub record Logger : Type 0 where
  pub level : String

-- The `Log` part of Config; the map of the loggers is a list with its first entry of a name.
pub record LogConfig : Type 0 where
  pub level : String
  pub format : String
  pub loggers : List (String × Logger)

-- ResourceList
pub record ResourceList : Type 0 where
  pub memory : String
  pub cpu : String

-- ContainerResources
pub record ContainerResources : Type 0 where
  pub requests : ResourceList
  pub limits : ResourceList

unfoldable pub find_logger : String → List (String × Logger) → Option Logger
find_logger name [] = none
find_logger name ((n, l) ∷ ls) = if n == name then some l else find_logger name ls

-- A logger without a level, and a missing one, get the general level.
abbrev pub logger_or : String → Option Logger → Logger
logger_or level (some l) = if l.level == "" then record { level = level } else l
logger_or level none = record { level = level }

-- GetLogger
unfoldable pub get_logger : LogConfig → String → Logger
get_logger c name = logger_or c.level (find_logger name c.loggers)

module _ (must_parse : String → Option ℕ) where
  -- `resource.MustParse` of both; `none` where one of the two calls panics
  unfoldable pub parse_both : Option ℕ → Option ℕ → Option (List (String × ℕ))
  parse_both (some cpu) (some memory) = some (("cpu", cpu) ∷ ("memory", memory) ∷ [])
  parse_both _ _ = none

  -- toKubernetes; the outer `none` is a panic, the inner one the list nil. The two inner tests of
  -- the source repeat the outer one.
  unfoldable pub to_kubernetes : ResourceList → Option KubeResourceList
  to_kubernetes c =
      if not (c.cpu == "") && not (c.memory == "")
      then elim (parse_both (must_parse c.cpu) (must_parse c.memory)) [
        | some list ↦ some (some list)
        | none ↦ none
      ]
      else some none

  unfoldable pub pair_resources :
      Option KubeResourceList → Option KubeResourceList → Option ResourceRequirements
  pair_resources (some requests) (some limits) =
      some (record { requests = requests; limits = limits })
  pair_resources _ _ = none

  -- ToResourceRequirement
  unfoldable pub to_resource_requirement : ContainerResources → Option ResourceRequirements
  to_resource_requirement c = pair_resources (to_kubernetes c.requests) (to_kubernetes c.limits)

-- An entry of the directory: its name and filepath.Ext of it.
pub record File : Type 0 where
  pub name : String
  pub ext : String

unfoldable pub is_yaml : File → Bool
is_yaml f = f.ext == ".yaml" || f.ext == ".yml"

-- The names of the files with one of the two extensions.
abbrev pub yaml_names : List File → List String
yaml_names [] = []
yaml_names (f ∷ fs) =
    if f.ext == ".yaml" || f.ext == ".yml" then f.name ∷ yaml_names fs else yaml_names fs

-- What `os.Stat` says of the directory.
pub data Stat : Type 0 where
  missing : Stat
  broken : Error → Stat
  file : String → Stat
  directory : Stat

-- koanf's store `K` and the calls on it and on the file system.
module _ {K : Type 0} (load_file : String → Exec K (Unit {0})) where
  -- The loop over the files: a file that does not load is reported and skipped.
  unfoldable pub load_files : List File → Exec K (Unit {0})
  load_files [] = pure tt
  load_files (f ∷ fs) = do
    if is_yaml f then (do attempt (load_file f.name); pure tt) else pure tt
    load_files fs

  -- The loads of these files one after the other, whatever each returns.
  abbrev pub load_all : List String → K → K
  load_all [] k = k
  load_all (name ∷ names) k = load_all names (load_file name k).1

  load_step :
      (b : Bool) (f : File) (fs : List File) (names : List String) (k : K)
      → ((k' : K) → load_files fs k' ≡ (ok tt, load_all names k'))
      → ((if b then (do attempt (load_file f.name); pure tt) else pure tt) >> load_files fs) k
        ≡ (ok tt, load_all (if b then f.name ∷ names else names) k)
  unfolding attempt ◌>>=◌
  load_step true f fs names k h = h (load_file f.name k).1
  load_step false f fs names k h = h k

  -- The loop over the configuration files returns no error, and leaves the configuration after the
  -- load of each file with the extension .yaml or .yml, in the order of the list, whether the loads
  -- before it failed or not; the other files change nothing.
  pub load_files-loads :
      (fs : List File) (k : K) → load_files fs k ≡ (ok tt, load_all (yaml_names fs) k)
  unfolding load_files is_yaml ◌>>=◌
  load_files-loads [] k = refl
  load_files-loads (f ∷ fs) k =
      load_step (f.ext == ".yaml" || f.ext == ".yml") f fs _ k (load_files-loads fs)

module _ {K : Type 0} (load_env : Exec K (Unit {0})) (load_file : String → Exec K (Unit {0}))
    (stat : Stat) (entries : Result (List File)) (sort : List File → List File) where
  -- loadConfigFiles
  unfoldable pub load_config_files : Exec K (Unit {0})
  load_config_files = elim stat [
    | missing ↦ pure tt
    | broken e ↦ fail (wrap "failed to get stat for /config: " e)
    | file name ↦ fail (msg (name <> " is not a directory"))
    | directory ↦ elim entries [
      | err e ↦ fail (wrap "failed to read config directory: " e)
      | ok files ↦ load_files load_file (sort files)
    ]
  ]

  -- LoadConfig up to the decoding, and the decoding
  unfoldable pub load_config : {C : Type 0} → (K → Result C) → Exec K C
  load_config unmarshal = do
    load_env
    load_config_files
    λ k. (
      elim (unmarshal k) [ ok c ↦ ok c | err e ↦ err (wrap "failed to unmarshal config: " e) ],
      k,
    )

-- LoadDefaultConfig; `load_bytes` is koanf's Load of the embedded file, and `none` is the end of
-- the process.
unfoldable pub load_default_config : {K : Type 0} → (K → Result (Unit {0}) × K) → K → Option K
load_default_config load_bytes k =
    let (r, k') = load_bytes k in elim r [ ok _ ↦ some k' | err e ↦ none ]

-- GetPluginConfig. The formats are numbers as in the messages: 1 is YAML and 2 is JSON; `cut` and
-- the two marshallers are koanf's.
unfoldable pub get_plugin_config :
    {K : Type 0}
    → (String → K)
    → (K → Result String)
    → (K → Result String)
    → ℕ
    → String
    → Result String
get_plugin_config cut yaml json zero id = err (msg "unknown format")
get_plugin_config cut yaml json (suc zero) id = yaml (cut ("plugins." <> id))
get_plugin_config cut yaml json (suc (suc zero)) id = json (cut ("plugins." <> id))
get_plugin_config cut yaml json (suc (suc (suc n))) id = err (msg "unknown format")

-- The level of a logger: its own where the configuration has one that is not empty, else the
-- general one.
abbrev pub HasLevel : LogConfig → String → String → Type 0
HasLevel c name level =
    ((l : Logger) × (find_logger name c.loggers ≡ some l)
      × (l.level == "" ≡ false)
      × (level ≡ l.level))
    ⊎ (((l : Logger) → find_logger name c.loggers ≡ some l → l.level ≡ "") × (level ≡ c.level))

chosen :
    (c : LogConfig) (name : String) (o : Option Logger)
    → find_logger name c.loggers ≡ o
    → HasLevel c name (logger_or c.level o).level
chosen c name none e = inr (λ l h. cc, refl)
chosen c name (some l) e =
    if_intro (λ (x : Logger). HasLevel c name x.level) (l.level == "") _ _
      (λ h. inr (λ m k. let q = (eq_iff l.level "").0 h in cc, refl)) (λ h. inl (l, e, h, refl))

-- GetLogger returns the level of the logger of that name if it has one, and the general level if
-- there is no logger of that name or its level is empty.
pub get_logger-HasLevel :
    (c : LogConfig) (name : String) → HasLevel c name (get_logger c name).level
unfolding get_logger
get_logger-HasLevel c name = chosen c name _ refl
