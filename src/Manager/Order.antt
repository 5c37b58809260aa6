-- ===== src/Manager/Order.antt =====
-- The order in which plugins are loaded and instantiated (fairmq/PluginManager.cxx).
use bachelor_fair_mq.Base.{
  List, [], ◌∷◌, ◌++◌, map, Text, codes, text_eq, starts_with, drop, Bool, true, false,
  if◌then◌else◌, Outcome, ok, throws, ◌>>=◌, has, Bool-cases, ◌≡◌, refl, sym, ◌∙◌, ◌⊎◌, inl, inr,
}
use bachelor_fair_mq.Manager.{
  Manager, add_plugin, Symbols, conclude_load, loaded, missing, broken, load_from_program,
  try_paths, load_plugin, load_plugins, instantiate_plugins,
}

-- A plugin's name without the mark of its mechanism.
abbrev pub bare : Text → Text
bare n =
    if starts_with n (codes "p:")
    then drop 2 n
    else if starts_with n (codes "d:")
    then drop 2 n
    else if starts_with n (codes "s:")
    then drop 2 n
    else n

-- The names, each where it comes first, behind those before.
abbrev pub firsts : List Text → List Text → List Text
firsts seen [] = seen
firsts seen (n ∷ ns) =
    let old = firsts seen ns in
    let new = firsts (seen ++ n ∷ []) ns in if has n seen then old else new

firsts-append :
    (s ns : List Text) (n : Text) → firsts s (ns ++ n ∷ []) ≡ firsts (firsts s ns) (n ∷ [])
firsts-append s [] n = refl
firsts-append s (k ∷ ns) n = elim (Bool-cases (has k s)) [
  | inl e ↦ rw e (firsts-append s ns n)
  | inr e ↦ rw e (firsts-append (s ++ k ∷ []) ns n)
]

firsts_twice : (s ns : List Text) → firsts [] s ≡ s → firsts [] (firsts s ns) ≡ firsts s ns
firsts_twice s [] h = h
firsts_twice s (n ∷ ns) h = elim (Bool-cases (has n s)) [
  | inl e ↦ rw e (firsts_twice s ns h)
  | inr e ↦ rw e (firsts_twice (s ++ n ∷ []) ns (firsts-append [] s n ∙ rw (h, e) refl))
]

-- The plugins whose factories are there are those of the order.
IsOrdered : Manager → Type 0
IsOrdered m = (k : Text) → has k (m.factories) ≡ has k (m.order)

has-end : (k n : Text) (ns : List Text) → has k (ns ++ n ∷ []) ≡ has k (n ∷ ns)
unfolding has
has-end k n [] = refl
has-end k n (j ∷ ns) = elim (Bool-cases (text_eq j k)) [
  | inl e ↦ elim (Bool-cases (text_eq n k)) [ inl f ↦ rw (e, f) refl | inr f ↦ rw (e, f) refl ]
  | inr e ↦ rw e (has-end k n ns)
]

add_plugin-IsOrdered : (n : Text) (m : Manager) → IsOrdered m → IsOrdered (add_plugin n m)
unfolding IsOrdered has
add_plugin-IsOrdered n m o k = rw (has-end k n (m.order), o k) refl

-- Loading throws, or the plugin is there already, or it is added.
Loads : Text → Manager → Outcome Manager → Type 0
Loads n m o =
    (o ≡ throws)
    ⊎ (((has n (m.factories) ≡ true) × (o ≡ ok m))
        ⊎ ((has n (m.factories) ≡ false) × (o ≡ ok (add_plugin n m))))

-- The two ends of a plugin that was not there.
Adds : Text → Manager → Outcome Manager → Type 0
Adds n m o = (o ≡ throws) ⊎ (o ≡ ok (add_plugin n m))

conclude_load-Adds :
    (without : Outcome Manager) (n : Text) (m : Manager) (s : Symbols)
    → Adds n m without
    → Adds n m (conclude_load without n m s)
unfolding Adds
conclude_load-Adds without n m loaded a = inr refl
conclude_load-Adds without n m missing a = a
conclude_load-Adds without n m broken a = inl refl

unless_there :
    (n : Text) (m : Manager) (o : Outcome Manager)
    → Adds n m o
    → Loads n m (if has n (m.factories) then ok m else o)
unfolding Adds Loads
unless_there n m o a = elim (Bool-cases (has n (m.factories))) [
  | inl e ↦ rw e (inr (inl (refl, refl)))
  | inr e ↦ rw e (elim a [ inl t ↦ inl t | inr t ↦ inr (inr (refl, t)) ])
]

module _ (load_symbols : Text → Text → Symbols) where
  try_paths-Adds :
      (n : Text) (ps : List Text) (m : Manager) → Adds n m (try_paths load_symbols n ps m)
  unfolding try_paths Adds
  try_paths-Adds n [] m = inl refl
  try_paths-Adds n (p ∷ ps) m =
      conclude_load-Adds (try_paths load_symbols n ps m) n m (load_symbols n p)
        (try_paths-Adds n ps m)

  load_from_program-Loads :
      (n : Text) (m : Manager) → Loads n m (load_from_program load_symbols n m)
  unfolding Adds
  load_from_program-Loads n m =
      unless_there n m _ (conclude_load-Adds throws n m (load_symbols n []) (inl refl))

  load_plugin-Loads :
      (ps : List Text) (n : Text) (m : Manager) → Loads (bare n) m (load_plugin load_symbols ps n m)
  unfolding load_plugin
  load_plugin-Loads ps n m = elim (Bool-cases (starts_with n (codes "p:"))) [
    | inl e ↦ rw e (load_from_program-Loads (drop 2 n) m)
    | inr e ↦ elim (Bool-cases (starts_with n (codes "d:"))) [
      | inl f ↦ rw (e, f) (unless_there (drop 2 n) m _ (try_paths-Adds (drop 2 n) ps m))
      | inr f ↦ elim (Bool-cases (starts_with n (codes "s:"))) [
        | inl g ↦ rw (e, f, g) (load_from_program-Loads (drop 2 n) m)
        | inr g ↦ rw (e, f, g) (unless_there n m _ (try_paths-Adds n ps m))
      ]
    ]
  ]

  load_plugins-order :
      (ps ns : List Text) (m : Manager)
      → IsOrdered m
      → (load_plugins load_symbols ps ns m ≡ throws)
        ⊎ ((m' : Manager) × (load_plugins load_symbols ps ns m ≡ ok m')
            × (m'.plugins ≡ m.plugins)
            × (m'.order ≡ firsts (m.order) (map bare ns)))
  unfolding load_plugins Loads IsOrdered
  load_plugins-order ps [] m o = inr (m, refl, refl, refl)
  load_plugins-order ps (n ∷ ns) m o = elim (load_plugin-Loads ps n m) [
    | inl e ↦ inl (rw e refl)
    | inr (inl (h, e)) ↦ rw (e, sym (o (bare n)) ∙ h) (load_plugins-order ps ns m o)
    | inr (inr (h, e)) ↦
        rw (e, sym (o (bare n)) ∙ h)
          (load_plugins-order ps ns (add_plugin (bare n) m) (add_plugin-IsOrdered (bare n) m o))
  ]

instantiate_plugins-firsts :
    (make : Text → Bool) (ns ps : List Text)
    → (instantiate_plugins make ns ps ≡ throws)
      ⊎ (instantiate_plugins make ns ps ≡ ok (firsts ps ns))
unfolding instantiate_plugins
instantiate_plugins-firsts make [] ps = inr refl
instantiate_plugins-firsts make (n ∷ ns) ps = elim (Bool-cases (has n ps)) [
  | inl e ↦ rw e (instantiate_plugins-firsts make ns ps)
  | inr e ↦ elim (Bool-cases (make n)) [
    | inl f ↦ rw (e, f) (instantiate_plugins-firsts make ns (ps ++ n ∷ []))
    | inr f ↦ inl (rw (e, f) refl)
  ]
]

abbrev pub no_plugins : Manager
no_plugins = record { factories = []; plugins = []; order = [] }

module _ (load_symbols : Text → Text → Symbols) (make : Text → Bool) where
  -- LoadPlugins and then InstantiatePlugins throw, or each of the plugins is instantiated once, in the
  -- order in which the names first mention it, by whatever mechanism.
  pub instantiate_plugins-order :
      (search_paths names : List Text)
      → ((load_plugins load_symbols search_paths names no_plugins >>= λ m.
            instantiate_plugins make (m.order) (m.plugins))
          ≡ throws)
        ⊎ ((load_plugins load_symbols search_paths names no_plugins >>= λ m.
              instantiate_plugins make (m.order) (m.plugins))
            ≡ ok (firsts [] (map bare names)))
  unfolding IsOrdered
  instantiate_plugins-order search_paths names =
      elim (load_plugins-order load_symbols search_paths names no_plugins (λ k. refl)) [
        | inl e ↦ inl (rw e refl)
        | inr (m, e, p, o) ↦
            rw (e, p, o)
              (rw (firsts_twice [] (map bare names) refl) at
                (instantiate_plugins-firsts make (firsts [] (map bare names)) []))
      ]
