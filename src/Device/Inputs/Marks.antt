-- ===== src/Device/Inputs/Marks.antt =====
-- The flags that HandleMultipleChannelInput sets (fairmq/FairMQDevice.cxx).
use bachelor_fair_mq.Base.{
  has, List, [], ◌∷◌, ◌++◌, map, Text, text_eq, text_eq_refl, eq_of_text_eq, Bool, true, false,
  if◌then◌else◌, some, ok, or_throw, lookup, insert, lookup-insert, All, All-append, All-weaken,
  ◌≡◌, refl, subst, sym, ap, ◌∙◌, ◌⊎◌, inl, inr, Bool-cases, ok-injective, bind-returns,
}
use bachelor_fair_mq.Channel.{Channel}
use bachelor_fair_mq.Device.Inputs.{Inputs, add_key, on_data, register, flag, mark}

pub map-flag : (b c : Bool) (cs : List Channel) → map (flag b) (map (flag c) cs) ≡ map (flag b) cs
map-flag b c [] = refl
map-flag b c (x ∷ xs) = ap (λ ys. flag b x ∷ ys) (map-flag b c xs)

-- The channel is in the map.
abbrev pub IsChannel : List (Text × List Channel) → Text → Type 0
IsChannel m k = (cs : List Channel) × (lookup k m ≡ some cs)

insert-IsChannel :
    (k j : Text) (ds : List Channel) (m : List (Text × List Channel))
    → IsChannel m j
    → IsChannel (insert k ds m) j
insert-IsChannel k j ds m (cs, h) = elim (Bool-cases (text_eq k j)) [
  | inl e ↦ (ds, lookup-insert k j ds m ∙ rw e refl)
  | inr e ↦ (cs, lookup-insert k j ds m ∙ rw e h)
]

insert-AllChannels :
    (k : Text) (ds : List Channel) (m : List (Text × List Channel)) (ks : List Text)
    → All (IsChannel m) ks
    → All (IsChannel (insert k ds m)) ks
insert-AllChannels k ds m [] a = tt
insert-AllChannels k ds m (j ∷ js) (c, a) =
    (insert-IsChannel k j ds m c, insert-AllChannels k ds m js a)

pub mark_returns :
    (b : Bool) (ks : List Text) (m : List (Text × List Channel))
    → All (IsChannel m) ks
    → (m' : List (Text × List Channel)) × (mark b ks m ≡ ok m')
unfolding mark
mark_returns b [] m a = (m, refl)
mark_returns b (k ∷ ks) m ((cs, h), a) = rw h (
    mark_returns b ks (insert k (map (flag b) cs) m)
      (insert-AllChannels k (map (flag b) cs) m ks a))

-- The subchannels of each marked channel have the flag, and the others are left.
pub mark-lookup :
    (b : Bool) (ks : List Text) (m m' : List (Text × List Channel)) (j : Text) (cs : List Channel)
    → mark b ks m ≡ ok m'
    → lookup j m ≡ some cs
    → lookup j m' ≡ some (if has j ks then map (flag b) cs else cs)
unfolding mark has
mark-lookup b [] m m' j cs e h = rw (sym (ok-injective e)) h
mark-lookup b (k ∷ ks) m m' j cs e h =
    let (ds, f, e') = bind-returns _ (or_throw (lookup k m)) e in
    let m1 = insert k (map (flag b) ds) m in
    elim (Bool-cases (text_eq k j)) [
      | inl t ↦
          let at_k : lookup k m ≡ some cs =
            subst (λ i. lookup i m ≡ some cs) (sym (eq_of_text_eq k j t)) h in
          let same : ds ≡ cs = sym (ok-injective (rw at_k at f)) in
          let here : lookup j m1 ≡ some (map (flag b) cs) =
            lookup-insert k j (map (flag b) ds) m ∙ rw t (ap (λ xs. some (map (flag b) xs)) same) in
          mark-lookup b ks m1 m' j (map (flag b) cs) e' here
          ∙ rw t (ap (λ xs. some xs) (flag_twice (has j ks) cs))
      | inr t ↦
          rw t (mark-lookup b ks m1 m' j cs e' (lookup-insert k j (map (flag b) ds) m ∙ rw t h))
    ]
  where
    flag_twice :
        (c : Bool) (cs : List Channel)
        → (if c then map (flag b) (map (flag b) cs) else map (flag b) cs) ≡ map (flag b) cs
    flag_twice true cs = map-flag b b cs
    flag_twice false cs = refl

-- Each key has a callback of a kind.
abbrev pub IsRegistered : Inputs → Text → Type 0
IsRegistered i k = (has k (i.msg) ≡ true) ⊎ (has k (i.multipart) ≡ true)

has-append :
    (j k : Text) (ks : List Text) → has j (ks ++ k ∷ []) ≡ (if has j ks then true else text_eq k j)
unfolding has
has-append j k [] = elim (Bool-cases (text_eq k j)) [ inl e ↦ rw e refl | inr e ↦ rw e refl ]
has-append j k (i ∷ ks) = elim (Bool-cases (text_eq i j)) [
  | inl e ↦ rw e refl
  | inr e ↦ rw e (has-append j k ks)
]

has-add_key : (j k : Text) (ks : List Text) → has j ks ≡ true → has j (add_key k ks) ≡ true
unfolding add_key
has-add_key j k ks h = elim (Bool-cases (has k ks)) [
  | inl e ↦ rw e h
  | inr e ↦ rw e (has-append j k ks ∙ rw h refl)
]

has-add_key_same : (k : Text) (ks : List Text) → has k (add_key k ks) ≡ true
unfolding add_key
has-add_key_same k ks = elim (Bool-cases (has k ks)) [
  | inl e ↦ rw (e, e) refl
  | inr e ↦ rw e (has-append k k ks ∙ rw (e, text_eq_refl k) refl)
]

add_key-All :
    (P : Text → Type 0) (k : Text) (ks : List Text) → P k → All P ks → All P (add_key k ks)
unfolding add_key
add_key-All P k ks p ps = elim (Bool-cases (has k ks)) [
  | inl e ↦ rw e ps
  | inr e ↦ rw e (All-append P ks (k ∷ []) ps (p, tt))
]

on_data-IsRegistered :
    (b : Bool) (k j : Text) (i : Inputs) → IsRegistered i j → IsRegistered (on_data b k i) j
unfolding on_data
on_data-IsRegistered true k j i (inl h) = inl h
on_data-IsRegistered true k j i (inr h) = inr (has-add_key j k (i.multipart) h)
on_data-IsRegistered false k j i (inl h) = inl (has-add_key j k (i.msg) h)
on_data-IsRegistered false k j i (inr h) = inr h

on_data-AllRegistered :
    (b : Bool) (k : Text) (i : Inputs)
    → All (IsRegistered i) (i.keys)
    → All (IsRegistered (on_data b k i)) ((on_data b k i).keys)
unfolding on_data
on_data-AllRegistered true k i a =
    add_key-All _ k (i.keys) (inr (has-add_key_same k (i.multipart)))
      (All-weaken (IsRegistered i) _ (i.keys) (λ j p. on_data-IsRegistered true k j i p) a)
on_data-AllRegistered false k i a =
    add_key-All _ k (i.keys) (inl (has-add_key_same k (i.msg)))
      (All-weaken (IsRegistered i) _ (i.keys) (λ j p. on_data-IsRegistered false k j i p) a)

pub register-AllRegistered :
    (rs : List (Bool × Text)) (i : Inputs)
    → All (IsRegistered i) (i.keys)
    → All (IsRegistered (register rs i)) ((register rs i).keys)
register-AllRegistered [] i a = a
register-AllRegistered ((b, k) ∷ rs) i a =
    register-AllRegistered rs (on_data b k i) (on_data-AllRegistered b k i a)

-- What holds of all the names that are registered holds of those in the lists.
abbrev pub AllNames : (Text → Type 0) → Inputs → Type 0
AllNames P i = All P (i.msg) × All P (i.multipart) × All P (i.keys)

pub register-AllNames :
    (P : Text → Type 0) (rs : List (Bool × Text)) (i : Inputs)
    → All (λ r. P (r.1)) rs
    → AllNames P i
    → AllNames P (register rs i)
unfolding on_data
register-AllNames P [] i ps a = a
register-AllNames P ((true, k) ∷ rs) i (p, ps) (a, b, c) =
    register-AllNames P rs (on_data true k i) ps
      (a, add_key-All P k (i.multipart) p b, add_key-All P k (i.keys) p c)
register-AllNames P ((false, k) ∷ rs) i (p, ps) (a, b, c) =
    register-AllNames P rs (on_data false k i) ps
      (add_key-All P k (i.msg) p a, b, add_key-All P k (i.keys) p c)
