-- ===== src/Zeromq/Message/Used.antt =====
-- What is sent of a message of the ZeroMQ transport (fairmq/zeromq/FairMQMessageZMQ.cxx).
use bachelor_fair_mq.Base.{
  ℕ, Bool, true, false, ◌≤◌, leb, [], ◌∷◌, Option, none, some, Text, length, take, ◌≡◌, refl, arith,
  if◌then◌else◌, zero, suc, ap, sym, subst,
}
use bachelor_fair_mq.Zeromq.Message.{
  ZMessage, get_message, get_size, set_used_size, apply_used_size, copy, size_of,
}

-- There is fMsg, no shorter than the used size, or there is a view of the used size in its place.
abbrev pub Wholes : Bool → ℕ → Option Text → Option Text → Type 0
Wholes b used none none = ⊥
Wholes b used none (some x) = if b then used ≤ length x else Unit
Wholes b used (some v) none = (b ≡ true) × (used ≡ length v)
Wholes b used (some v) (some x) = ⊥

abbrev pub Whole : ZMessage → Type 0
Whole m = Wholes (m.used_size_modified) (m.used_size) (m.view_msg) (m.msg)

-- What the socket sends: the message behind ApplyUsedSize.
abbrev pub sent_of : Option ZMessage → Option Text
sent_of none = none
sent_of (some m) = get_message m

abbrev set_to : Bool → ℕ → Option Text → Option Text → ZMessage
set_to b used v o = record { used_size_modified = b; used_size = used; msg = o; view_msg = v }

take-length : (x : Text) → take (length x) x ≡ x
take-length [] = refl
take-length (b ∷ x) = ap (λ y. b ∷ y) (take-length x)

length-take : (n : ℕ) (x : Text) → n ≤ length x → length (take n x) ≡ n
length-take zero x l = omega arith
length-take (suc n) [] l = absurd (omega (arith, l))
length-take (suc n) (b ∷ x) l = omega (arith, length-take n x (omega (arith, l)))

-- Of a copy is sent what is sent of its source.
abbrev pub Copies : ZMessage → Option ZMessage → Type 0
Copies from none = ⊥
Copies from (some n) =
    (sent_of (apply_used_size n) ≡ sent_of (apply_used_size from))
    × (get_size n ≡ size_of (sent_of (apply_used_size from)))

copy_fresh :
    (b : Bool) (used : ℕ) (v o : Option Text) (u : ℕ) (own : Text)
    → Wholes b used v o
    → Copies (set_to b used v o) (copy (set_to b used v o) (set_to false u none (some own)))
unfolding copy apply_used_size
copy_fresh b used none none u own w = absurd w
copy_fresh true used none (some x) u own w = (refl, ap some (sym (length-take used x w)))
copy_fresh false used none (some x) u own w = (refl, refl)
copy_fresh b used (some v) none u own (e, l) = rw (e, l) (ap some (take-length v), refl)
copy_fresh b used (some v) (some x) u own w = absurd w

leb_le : (a b : ℕ) → a ≤ b → leb a b ≡ true
leb_le a b l = ground arith

-- A message, seen as its fields.
fields_of :
    (m : ZMessage) (b : Bool) (v o : Option Text)
    → m.used_size_modified ≡ b
    → m.view_msg ≡ v
    → m.msg ≡ o
    → m ≡ set_to b (m.used_size) v o
fields_of m b v o e f g =
    λ i. record { used_size_modified = e i; used_size = m.used_size; msg = g i; view_msg = f i }

-- A message that was not resized and has its fMsg becomes by Copy one of which is sent what is sent
-- of the source, be that resized, resized and applied already, or neither; and GetSize of the copy
-- is the number of those bytes.
pub copy-Copies :
    (from m : ZMessage) (own : Text)
    → Whole from
    → m.used_size_modified ≡ false
    → m.view_msg ≡ none
    → m.msg ≡ some own
    → Copies from (copy from m)
copy-Copies from m own w e f g =
    subst (λ n. Copies from (copy from n)) (sym (fields_of m false none (some own) e f g))
      (copy_fresh (from.used_size_modified) (from.used_size) (from.view_msg) (from.msg)
        (m.used_size) own w)

-- SetUsedSize of a message that has its fMsg succeeds up to the size of that. Then the first bytes of
-- that many are sent, whether or not it had been resized before; GetSize tells their number before
-- and behind ApplyUsedSize; and a second ApplyUsedSize changes nothing.
pub set_used_size-sent :
    (n : ℕ) (m : ZMessage) (x : Text)
    → m.view_msg ≡ none
    → m.msg ≡ some x
    → n ≤ length x
    → (k : ZMessage) × ((set_used_size n m ≡ some (true, k))
        × ((get_size k ≡ some n)
            × ((l : ZMessage) × ((apply_used_size k ≡ some l)
                  × ((get_message l ≡ some (take n x))
                      × ((length (take n x) ≡ n)
                          × ((get_size l ≡ some n) × (apply_used_size l ≡ some l))))))))
unfolding set_used_size apply_used_size
set_used_size-sent n m x f g l = (
  set_to true n none (some x),
  (
    subst (λ k. set_used_size n k ≡ some (true, set_to true n none (some x)))
        (sym (fields_of m (m.used_size_modified) none (some x) refl f g))
        (rw (leb_le n (length x) l) refl),
    (
      refl,
      (set_to true n (some (take n x)) none, (refl, (refl, (length-take n x l, (refl, refl))))),
    ),
  ),
)
