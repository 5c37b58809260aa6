-- ===== src/Channel/Accepts.antt =====
-- The endpoints that ValidateChannel accepts, described by their form (fairmq/FairMQChannel.cxx).
use bachelor_fair_mq.Base.{
  ℕ, ◌≡◌, inl, inr, refl, sym, ap, ◌∙◌, subst, true, false, [], ◌∷◌, ◌++◌, Text, codes, ok, throws,
  starts_with, substr, Listed, drop, length, arith, eq_of_starts_with, starts_with-append,
  substr-append, text_eq, contains, find-contains, contains→split, contains-append, Bool-cases,
}
use bachelor_fair_mq.Channel.Endpoint.{socket_methods, is_modifier, check_address, nonempty}

-- An address by its protocol: tcp:// with a port, ipc:// and inproc:// with a name, and verbs://
-- with at least two bytes behind it.
pub data GoodAddress (a : Text) : Type 0 where
  tcp : (host port : Text) → a ≡ codes "tcp://" ++ host ++ b':' ∷ port → GoodAddress a
  ipc : (c : ℕ) (s : Text) → a ≡ codes "ipc://" ++ c ∷ s → GoodAddress a
  inproc : (c : ℕ) (s : Text) → a ≡ codes "inproc://" ++ c ∷ s → GoodAddress a
  verbs : (c d : ℕ) (s : Text) → a ≡ codes "verbs://" ++ c ∷ d ∷ s → GoodAddress a

-- An endpoint: an address behind a modifier, or with no modifier under a known method.
pub data GoodEndpoint (method e : Text) : Type 0 where
  marked :
      (c : ℕ) (a : Text) → e ≡ c ∷ a → is_modifier c ≡ true → GoodAddress a → GoodEndpoint method e
  bare :
      (c : ℕ) (a : Text)
      → e ≡ c ∷ a
      → is_modifier c ≡ false
      → Listed socket_methods method
      → GoodAddress e
      → GoodEndpoint method e

check_tcp : (s : Text) → check_address (codes "tcp://" ++ s) ≡ ok (contains b':' s)
unfolding check_address
check_tcp s =
    rw (starts_with-append (codes "tcp://") s, substr-append (codes "tcp://") s)
      (ground (arith, find-contains b':' s))

ipc_prefix : (s : Text) → starts_with (codes "ipc://" ++ s) (codes "tcp://") ≡ false
unfolding starts_with text_eq
ipc_prefix s = refl

check_ipc : (s : Text) → check_address (codes "ipc://" ++ s) ≡ ok (nonempty s)
unfolding check_address
check_ipc s =
    rw (ipc_prefix s, starts_with-append (codes "ipc://") s, substr-append (codes "ipc://") s)

inproc_prefix :
    (s : Text)
    → (starts_with (codes "inproc://" ++ s) (codes "tcp://") ≡ false)
      × (starts_with (codes "inproc://" ++ s) (codes "ipc://") ≡ false)
unfolding starts_with text_eq
inproc_prefix s = (refl, refl)

check_inproc : (s : Text) → check_address (codes "inproc://" ++ s) ≡ ok (nonempty s)
unfolding check_address
check_inproc s = rw (
  (inproc_prefix s).0,
  (inproc_prefix s).1,
  starts_with-append (codes "inproc://") s,
  substr-append (codes "inproc://") s,
)

verbs_prefix :
    (s : Text)
    → (starts_with (codes "verbs://" ++ s) (codes "tcp://") ≡ false)
      × (starts_with (codes "verbs://" ++ s) (codes "ipc://") ≡ false)
      × (starts_with (codes "verbs://" ++ s) (codes "inproc://") ≡ false)
unfolding starts_with text_eq
verbs_prefix s = (refl, refl, refl)

pub check_verbs : (c : ℕ) (s : Text) → check_address (codes "verbs://" ++ c ∷ s) ≡ ok (nonempty s)
unfolding check_address
check_verbs c s = rw (
  (verbs_prefix (c ∷ s)).0,
  (verbs_prefix (c ∷ s)).1,
  (verbs_prefix (c ∷ s)).2,
  starts_with-append (codes "verbs://") (c ∷ s),
  substr-append (codes "verbs://" ++ c ∷ []) s,
)

pub check_verbs_empty : check_address (codes "verbs://") ≡ throws
unfolding check_address starts_with substr text_eq
check_verbs_empty = refl

-- An address that has one of the forms passes the check.
pub GoodAddress-check : (a : Text) → GoodAddress a → check_address a ≡ ok true
GoodAddress-check a (tcp host port e) =
    rw (e, check_tcp (host ++ b':' ∷ port)) (ap ok (contains-append b':' host port))
GoodAddress-check a (ipc c s e) = rw (e, check_ipc (c ∷ s))
GoodAddress-check a (inproc c s e) = rw (e, check_inproc (c ∷ s))
GoodAddress-check a (verbs c d s e) = rw (e, check_verbs c (d ∷ s))

-- The check of an address with no known protocol.
check_other :
    (a : Text)
    → starts_with a (codes "tcp://") ≡ false
    → starts_with a (codes "ipc://") ≡ false
    → starts_with a (codes "inproc://") ≡ false
    → starts_with a (codes "verbs://") ≡ false
    → check_address a ≡ ok false
unfolding check_address
check_other a t i n v = rw (t, i, n, v)

GoodAddress-tcp :
    (s : Text) → check_address (codes "tcp://" ++ s) ≡ ok true → GoodAddress (codes "tcp://" ++ s)
GoodAddress-tcp s h =
    let (l, r, e) = contains→split b':' s (ground (arith, check_tcp s)) in
    tcp l r (ap (◌++◌ (codes "tcp://")) e)

GoodAddress-ipc :
    (s : Text) → check_address (codes "ipc://" ++ s) ≡ ok true → GoodAddress (codes "ipc://" ++ s)
GoodAddress-ipc [] h = absurd (cc (check_ipc []))
GoodAddress-ipc (c ∷ s) h = ipc c s refl

GoodAddress-inproc :
    (s : Text)
    → check_address (codes "inproc://" ++ s) ≡ ok true
    → GoodAddress (codes "inproc://" ++ s)
GoodAddress-inproc [] h = absurd (cc (check_inproc []))
GoodAddress-inproc (c ∷ s) h = inproc c s refl

GoodAddress-verbs :
    (s : Text)
    → check_address (codes "verbs://" ++ s) ≡ ok true
    → GoodAddress (codes "verbs://" ++ s)
GoodAddress-verbs [] h = absurd (cc check_verbs_empty)
GoodAddress-verbs (c ∷ []) h = absurd (cc (check_verbs c []))
GoodAddress-verbs (c ∷ d ∷ s) h = verbs c d s refl

-- A text that starts with a prefix, in a property that holds of each text behind that prefix.
behind :
    (P : Text → Type 0) (p : Text)
    → ((s : Text) → check_address (p ++ s) ≡ ok true → P (p ++ s))
    → (a : Text) → starts_with a p ≡ true
    → check_address a ≡ ok true
    → P a
behind P p all a h k =
    let e = eq_of_starts_with a p h in
    subst P (sym e) (all (drop (length p) a) (sym (ap check_address e) ∙ k))

-- An address that passes the check has one of the forms.
pub check-GoodAddress : (a : Text) → check_address a ≡ ok true → GoodAddress a
check-GoodAddress a h = elim (Bool-cases (starts_with a (codes "tcp://"))) [
  | inl t ↦ behind GoodAddress (codes "tcp://") GoodAddress-tcp a t h
  | inr t ↦ elim (Bool-cases (starts_with a (codes "ipc://"))) [
    | inl i ↦ behind GoodAddress (codes "ipc://") GoodAddress-ipc a i h
    | inr i ↦ elim (Bool-cases (starts_with a (codes "inproc://"))) [
      | inl n ↦ behind GoodAddress (codes "inproc://") GoodAddress-inproc a n h
      | inr n ↦ elim (Bool-cases (starts_with a (codes "verbs://"))) [
        | inl v ↦ behind GoodAddress (codes "verbs://") GoodAddress-verbs a v h
        | inr v ↦ absurd (cc (check_other a t i n v))
      ]
    ]
  ]
]
