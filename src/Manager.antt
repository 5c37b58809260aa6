-- ===== src/Manager.antt =====
-- The plugin manager (fairmq/PluginManager.cxx and .h). What the file system and boost::dll answer are
-- parameters, and so is whether a plugin's factory throws.
pub mod Paths
pub mod Order
mod Tests
use bachelor_fair_mq.Base.{
  has, ℕ, List, [], ◌∷◌, ◌++◌, Text, codes, text_eq, starts_with, drop, ◌==◌, Bool, true, false,
  if◌then◌else◌, Outcome, ok, throws, exits, ◌>>=◌,
}

-- The three lists of search paths that the constructor fills.
pub record SearchPaths : Type 0 where
  pub append : List Text
  pub prepend : List Text
  pub search_paths : List Text

abbrev pub sort_path : Text → SearchPaths → SearchPaths
sort_path [] s = record s { search_paths = s.search_paths ++ [] ∷ [] }
sort_path (c ∷ path) s =
    if c == b'<'
    then record s { prepend = s.prepend ++ path ∷ [] }
    else if c == b'>'
    then record s { append = s.append ++ path ∷ [] }
    else record s { search_paths = s.search_paths ++ (c ∷ path) ∷ [] }

unfoldable pub sort_paths : List Text → SearchPaths → SearchPaths
sort_paths [] s = s
sort_paths (p ∷ ps) s = sort_paths ps (sort_path p s)

-- `is_file`: the path exists and is not a directory.
module _ (is_file : Text → Bool) where
  abbrev pub validate_search_path : Text → Outcome (Unit {0})
  validate_search_path [] = throws
  validate_search_path (c ∷ path) = if is_file (c ∷ path) then throws else ok tt

  unfoldable pub validate_all : List Text → Outcome (Unit {0})
  validate_all [] = ok tt
  validate_all (p ∷ ps) = do _ ← validate_search_path p; validate_all ps

  -- SetSearchPaths, AppendSearchPath and PrependSearchPath, on fSearchPaths.
  abbrev pub set_search_paths : List Text → List Text → Outcome (List Text)
  set_search_paths paths old = do _ ← validate_all paths; ok paths

  abbrev pub append_search_path : Text → List Text → Outcome (List Text)
  append_search_path path old = do _ ← validate_search_path path; ok (old ++ path ∷ [])

  abbrev pub prepend_search_path : Text → List Text → Outcome (List Text)
  prepend_search_path path old = do _ ← validate_search_path path; ok (path ∷ old)

  unfoldable pub append_all : List Text → List Text → Outcome (List Text)
  append_all [] old = ok old
  append_all (p ∷ ps) old = do next ← append_search_path p old; append_all ps next

  unfoldable pub prepend_all : List Text → List Text → Outcome (List Text)
  prepend_all [] old = ok old
  prepend_all (p ∷ ps) old = do next ← prepend_search_path p old; prepend_all ps next

  -- The constructor, up to the plugins, from the values of --plugin-search-path.
  unfoldable pub construct : List Text → Outcome (List Text)
  construct args = do
    let s = sort_paths args (record { append = []; prepend = []; search_paths = [] })
    set ← set_search_paths (s.search_paths) (codes "." ∷ [])
    prepended ← prepend_all (s.prepend) set
    append_all (s.append) prepended

-- What LoadSymbols ends in: the factory is there, the file is missing, or another error.
pub data Symbols : Type 0 where
  loaded missing broken : Symbols

-- The keys of fPluginFactories and of fPlugins, and fPluginOrder.
pub record Manager : Type 0 where
  pub factories : List Text
  pub plugins : List Text
  pub order : List Text

abbrev pub add_plugin : Text → Manager → Manager
add_plugin name m = record m { factories = name ∷ m.factories; order = m.order ++ name ∷ [] }

-- What follows a call of LoadSymbols, where the file is missing and else.
abbrev pub conclude_load : Outcome Manager → Text → Manager → Symbols → Outcome Manager
conclude_load without name m loaded = ok (add_plugin name m)
conclude_load without name m missing = without
conclude_load without name m broken = throws

-- `load_symbols` answers by the plugin and the search path; the empty one is the program itself.
module _ (load_symbols : Text → Text → Symbols) where
  -- LoadPluginPrelinkedDynamic and LoadPluginStatic, which are the same.
  abbrev pub load_from_program : Text → Manager → Outcome Manager
  load_from_program name m =
      if has name m.factories then ok m else conclude_load throws name m (load_symbols name [])

  unfoldable pub try_paths : Text → List Text → Manager → Outcome Manager
  try_paths name [] m = throws
  try_paths name (p ∷ ps) m = conclude_load (try_paths name ps m) name m (load_symbols name p)

  abbrev pub load_plugin_dynamic : List Text → Text → Manager → Outcome Manager
  load_plugin_dynamic search_paths name m =
      if has name m.factories then ok m else try_paths name search_paths m

  unfoldable pub load_plugin : List Text → Text → Manager → Outcome Manager
  load_plugin search_paths name m =
      if starts_with name (codes "p:")
      then load_from_program (drop 2 name) m
      else if starts_with name (codes "d:")
      then load_plugin_dynamic search_paths (drop 2 name) m
      else if starts_with name (codes "s:")
      then load_from_program (drop 2 name) m
      else load_plugin_dynamic search_paths name m

  unfoldable pub load_plugins : List Text → List Text → Manager → Outcome Manager
  load_plugins search_paths [] m = ok m
  load_plugins search_paths (n ∷ ns) m = do
    m' ← load_plugin search_paths n m
    load_plugins search_paths ns m'

-- `make` tells whether the factory of a plugin returns.
module _ (make : Text → Bool) where
  abbrev pub instantiate_plugin : Text → List Text → Outcome (List Text)
  instantiate_plugin name plugins =
      if has name plugins
      then ok plugins
      else if make name
      then ok (plugins ++ name ∷ [])
      else throws

  unfoldable pub instantiate_plugins : List Text → List Text → Outcome (List Text)
  instantiate_plugins [] plugins = ok plugins
  instantiate_plugins (n ∷ ns) plugins = do
    plugins' ← instantiate_plugin n plugins
    instantiate_plugins ns plugins'
