-- ===== src/Devices/Multiplier.antt =====
-- FairMQMultiplier (fairmq/devices/FairMQMultiplier.cxx): each payload goes to every subchannel of
-- the output channels, as a copy to all but the last.
use mathlib.Core.List.{append_assoc}
use bachelor_fair_mq.Base.{
  ℕ, zero, suc, ◌+◌, ◌-◌, ◌%◌, ◌^◌, ◌≤◌, ◌<◌, List, [], ◌∷◌, ◌++◌, true, false, ltb, Option, some,
  Outcome, ok, throws, ◌>>=◌, or_throw, Text, ◌≡◌, refl, sym, ap, ◌∙◌, arith, All,
}

pub data Payload : Type 0 where
  copy original : Payload

-- A call of Send: the channel, the index of the subchannel, and what is sent.
abbrev pub Delivery : Type 0
Delivery = Text × (ℕ × Payload)

-- Send at an index of a channel with so many subchannels; `at` throws out of range.
unfoldable pub send_at : ℕ → Text → ℕ → Payload → Outcome (List Delivery)
send_at size name i payload = elim (ltb i size) [
  | true ↦ ok ((name, (i, payload)) ∷ [])
  | false ↦ throws
]

-- A loop that sends copies to so many subchannels from an index on.
unfoldable pub send_copies : ℕ → Text → ℕ → ℕ → Outcome (List Delivery)
send_copies size name i zero = ok []
send_copies size name i (suc k) = do
  here ← send_at size name i copy
  rest ← send_copies size name (suc i) k
  ok (here ++ rest)

-- HandleSingleData and HandleMultipartData, for the output channels in order, over the sizes of the
-- channels, where an unknown name throws; `lastChannelSize - 1` is computed in 32 bits.
unfoldable pub multiply : (Text → Option ℕ) → List Text → Outcome (List Delivery)
multiply sizes [] = throws
multiply sizes (name ∷ []) = do
  size ← or_throw (sizes name)
  let last = (size + (2 ^ 32 - 1)) % 2 ^ 32
  copies ← send_copies size name 0 last
  final ← send_at size name last original
  ok (copies ++ final)
multiply sizes (name ∷ next ∷ names) = do
  size ← or_throw (sizes name)
  copies ← send_copies size name 0 size
  rest ← multiply sizes (next ∷ names)
  ok (copies ++ rest)

-- All subchannels of a channel from an index on, and of all channels.
abbrev pub subchannels : Text → ℕ → ℕ → List (Text × ℕ)
subchannels name i zero = []
subchannels name i (suc k) = (name, i) ∷ subchannels name (suc i) k

abbrev pub outputs : (Text → ℕ) → List Text → List (Text × ℕ)
outputs count [] = []
outputs count (name ∷ names) = subchannels name 0 (count name) ++ outputs count names

-- A copy for each.
abbrev pub copied : List (Text × ℕ) → List Delivery
copied [] = []
copied ((name, i) ∷ ts) = (name, (i, copy)) ∷ copied ts

send_at-ok :
    (size : ℕ) (name : Text) (i : ℕ) (payload : Payload)
    → i < size
    → send_at size name i payload ≡ ok ((name, (i, payload)) ∷ [])
unfolding send_at
send_at-ok size name i payload h = ground arith

send_copies-ok :
    (size : ℕ) (name : Text) (i k : ℕ)
    → i + k ≤ size
    → send_copies size name i k ≡ ok (copied (subchannels name i k))
unfolding send_copies
send_copies-ok size name i zero h = refl
send_copies-ok size name i (suc k) h =
    rw (send_at-ok size name i copy (omega arith), send_copies-ok size name (suc i) k (omega arith))
      refl

copied-append : (ts us : List (Text × ℕ)) → copied (ts ++ us) ≡ copied ts ++ copied us
copied-append [] us = refl
copied-append (t ∷ ts) us = ap (λ ds. (t.0, (t.1, copy)) ∷ ds) (copied-append ts us)

regroup :
    (ts os ss : List (Text × ℕ)) (ds : List Delivery)
    → copied ts ++ (copied (os ++ ss) ++ ds) ≡ copied ((ts ++ os) ++ ss) ++ ds
regroup ts os ss ds =
    sym (append_assoc (copied ts) (copied (os ++ ss)) ds)
    ∙ ap (λ es. es ++ ds)
        (sym (copied-append ts (os ++ ss)) ∙ ap copied (sym (append_assoc ts os ss)))

-- With every output channel known, and the last one of at least one and fewer than 2 ^ 32
-- subchannels, a payload is sent once to each subchannel of each output channel, in order: the
-- payload itself to the last subchannel of the last channel, and a copy to each other.
pub multiply-outputs :
    (sizes : Text → Option ℕ) (count : Text → ℕ) (names : List Text) (last : Text) (n : ℕ)
    → All (λ name. sizes name ≡ some (count name)) names
    → sizes last ≡ some (suc n)
    → suc n < 2 ^ 32
    → multiply sizes (names ++ last ∷ [])
      ≡ ok (copied (outputs count names ++ subchannels last 0 n) ++ (last, (n, original)) ∷ [])
unfolding multiply
multiply-outputs sizes count [] last n k l b =
    rw (l, wrapped)
      (rw (send_copies-ok (suc n) last 0 n (omega arith))
        (rw (send_at-ok (suc n) last n original (omega arith)) refl))
  where
    wrapped : (suc n + (2 ^ 32 - 1)) % 2 ^ 32 ≡ n
    wrapped = omega arith
multiply-outputs sizes count (x ∷ []) last n (k, ks) l b =
    rw
      (
        k,
        send_copies-ok (count x) x 0 (count x) (omega arith),
        multiply-outputs sizes count [] last n ks l b,
      )
      (ap ok (regroup (subchannels x 0 (count x)) [] (subchannels last 0 n) _))
multiply-outputs sizes count (x ∷ y ∷ names) last n (k, ks) l b =
    rw
      (
        k,
        send_copies-ok (count x) x 0 (count x) (omega arith),
        multiply-outputs sizes count (y ∷ names) last n ks l b,
      )
      (ap ok
        (regroup (subchannels x 0 (count x)) (outputs count (y ∷ names)) (subchannels last 0 n) _))
