-- ===== src/Manager/Tests.antt =====
-- A plugin manager with two search paths.
use bachelor_fair_mq.Base.{
  ◌≡◌, refl, List, [], ◌∷◌, Text, codes, text_eq, starts_with, has, Bool, true, false, ok, throws,
  ◌>>=◌, ◌⊎◌, if◌then◌else◌,
}
use bachelor_fair_mq.Manager.{
  Symbols, loaded, missing, construct, sort_paths, validate_all, prepend_all, append_all,
  load_plugins, load_plugin, try_paths, instantiate_plugins,
}
use bachelor_fair_mq.Manager.Paths.{construct-paths}
use bachelor_fair_mq.Manager.Order.{instantiate_plugins-order, no_plugins}

abbrev nowhere : Text → Bool
nowhere path = false

abbrev paths : List Text
paths = codes "/usr/lib" ∷ codes ">/lib" ∷ codes "</home/a" ∷ codes "</home/b" ∷ []

construct-paths_example :
    construct nowhere paths
    ≡ ok (codes "/home/b" ∷ codes "/home/a" ∷ codes "/usr/lib" ∷ codes "/lib" ∷ [])
construct-paths_example = construct-paths nowhere paths (refl, (refl, tt)) (refl, tt) (refl, tt)

-- Without the option, the default path is lost.
no_paths : construct nowhere [] ≡ ok []
unfolding construct validate_all sort_paths prepend_all append_all
no_paths = refl

-- The plugins are in the second path, or in the program.
abbrev second_path : Text → Text → Symbols
second_path name path = if text_eq path (codes "/a") then missing else loaded

abbrev names : List Text
names = codes "d:x" ∷ codes "p:y" ∷ codes "x" ∷ []

abbrev makes : Text → Bool
makes name = true

instantiate_plugins-order_example :
    ((load_plugins second_path (codes "/a" ∷ codes "/b" ∷ []) names no_plugins >>= λ m.
    instantiate_plugins makes (m.order) (m.plugins))
      ≡ throws)
    ⊎ ((load_plugins second_path (codes "/a" ∷ codes "/b" ∷ []) names no_plugins >>= λ m.
          instantiate_plugins makes (m.order) (m.plugins))
        ≡ ok (codes "x" ∷ codes "y" ∷ []))
unfolding starts_with text_eq has
instantiate_plugins-order_example =
    instantiate_plugins-order second_path makes (codes "/a" ∷ codes "/b" ∷ []) names

both_are_instantiated :
    (load_plugins second_path (codes "/a" ∷ codes "/b" ∷ []) names no_plugins >>= λ m.
    instantiate_plugins makes (m.order) (m.plugins))
    ≡ ok (codes "x" ∷ codes "y" ∷ [])
unfolding load_plugins load_plugin try_paths starts_with text_eq has instantiate_plugins
both_are_instantiated = refl
