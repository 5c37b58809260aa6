-- ===== src/Manager/Paths.antt =====
-- The search paths that the plugin manager ends up with (fairmq/PluginManager.cxx).
use mathlib.Core.List.{append_assoc, append-nil}
use bachelor_fair_mq.Base.{
  ℕ, List, [], ◌∷◌, ◌++◌, Text, ◌==◌, Bool, false, ◌||◌, if◌then◌else◌, ok, All, Bool-cases, ◌≡◌,
  refl, sym, ap, ◌∙◌, inl, inr, arith,
}
use bachelor_fair_mq.Manager.{
  SearchPaths, sort_path, sort_paths, validate_search_path, validate_all, append_all, prepend_all,
  construct,
}

-- The paths marked by a byte, without it, and those that are not marked.
abbrev pub marked : ℕ → List Text → List Text
marked c [] = []
marked c ([] ∷ ps) = marked c ps
marked c ((x ∷ p) ∷ ps) = let rest = marked c ps in if x == c then p ∷ rest else rest

abbrev pub unmarked : List Text → List Text
unmarked [] = []
unmarked ([] ∷ ps) = [] ∷ unmarked ps
unmarked ((x ∷ p) ∷ ps) =
    let rest = unmarked ps in if x == b'<' || x == b'>' then rest else (x ∷ p) ∷ rest

-- The last comes first.
abbrev pub reversed : List Text → List Text → List Text
reversed [] end = end
reversed (p ∷ ps) end = reversed ps (p ∷ end)

sort_paths-lists :
    (ps : List Text) (s : SearchPaths)
    → sort_paths ps s ≡ record {
      append = s.append ++ marked b'>' ps;
      prepend = s.prepend ++ marked b'<' ps;
      search_paths = s.search_paths ++ unmarked ps;
    }
unfolding sort_paths
sort_paths-lists [] s =
    rw (append-nil (s.append), append-nil (s.prepend), append-nil (s.search_paths)) refl
sort_paths-lists ([] ∷ ps) s =
    sort_paths-lists ps (sort_path [] s)
    ∙ rw (append_assoc (s.search_paths) ([] ∷ []) (unmarked ps)) refl
sort_paths-lists ((x ∷ p) ∷ ps) s = elim (Bool-cases (x == b'<')) [
  | inl e ↦
      let f : (x == b'>') ≡ false = ground arith in
      sort_paths-lists ps (sort_path (x ∷ p) s)
      ∙ rw (e, f, append_assoc (s.prepend) (p ∷ []) (marked b'<' ps)) refl
  | inr e ↦ elim (Bool-cases (x == b'>')) [
    | inl f ↦
        sort_paths-lists ps (sort_path (x ∷ p) s)
        ∙ rw (e, f, append_assoc (s.append) (p ∷ []) (marked b'>' ps)) refl
    | inr f ↦
        sort_paths-lists ps (sort_path (x ∷ p) s)
        ∙ rw (e, f, append_assoc (s.search_paths) ((x ∷ p) ∷ []) (unmarked ps)) refl
  ]
]

module _ (is_file : Text → Bool) where
  -- A path that is accepted.
  abbrev pub IsPath : Text → Type 0
  IsPath p = validate_search_path is_file p ≡ ok tt

  validate_all_returns : (ps : List Text) → All IsPath ps → validate_all is_file ps ≡ ok tt
  unfolding validate_all
  validate_all_returns [] a = refl
  validate_all_returns (p ∷ ps) (v, a) = rw v (validate_all_returns ps a)

  append_all_returns :
      (ps old : List Text) → All IsPath ps → append_all is_file ps old ≡ ok (old ++ ps)
  unfolding append_all
  append_all_returns [] old a = ap ok (sym (append-nil old))
  append_all_returns (p ∷ ps) old (v, a) =
      rw v (append_all_returns ps (old ++ p ∷ []) a ∙ ap ok (append_assoc old (p ∷ []) ps))

  prepend_all_returns :
      (ps old : List Text) → All IsPath ps → prepend_all is_file ps old ≡ ok (reversed ps old)
  unfolding prepend_all
  prepend_all_returns [] old a = refl
  prepend_all_returns (p ∷ ps) old (v, a) = rw v (prepend_all_returns ps (p ∷ old) a)

  -- Where all paths are accepted, without their marks, the manager looks first in those marked with <,
  -- the last of them first, then in those without a mark, and then in those marked with >; the
  -- default path is not among them.
  pub construct-paths :
      (ps : List Text)
      → All IsPath (marked b'<' ps)
      → All IsPath (unmarked ps)
      → All IsPath (marked b'>' ps)
      → construct is_file ps ≡ ok (reversed (marked b'<' ps) (unmarked ps) ++ marked b'>' ps)
  unfolding construct
  construct-paths ps a b c =
      rw
        (
          construct,
          sort_paths-lists ps (record { append = []; prepend = []; search_paths = [] }),
          validate_all_returns (unmarked ps) b,
          prepend_all_returns (marked b'<' ps) (unmarked ps) a,
        )
        (append_all_returns (marked b'>' ps) (reversed (marked b'<' ps) (unmarked ps)) c)
