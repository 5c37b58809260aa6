-- ===== src/Zeromq/RoundTrip.antt =====
-- A message of several parts on its way from a ZeroMQ socket to another
-- (fairmq/zeromq/FairMQSocketZMQ.cxx).
use mathlib.Core.List.{append_assoc}
use bachelor_fair_mq.Base.{
  ℕ, zero, suc, ◌+◌, ◌≤◌, ℤ, pos, Bool, List, [], ◌∷◌, ◌++◌, some, Text, length, ◌≡◌, refl, sym, ap,
  ◌∙◌, subst, inl, inr, arith,
}
use bachelor_fair_mq.Zeromq.{Socket, Zmq, Progress}
use bachelor_fair_mq.Zeromq.Send.{send_vector}
use bachelor_fair_mq.Zeromq.Delivery.{frames_of, total_size, send_vector-Reported}
use bachelor_fair_mq.Zeromq.Multipart.{
  GotPart, part, all_come, receive_parts, all_received, vector_rounds, receive_vector,
}

-- The calls from the i-th on bring these frames.
abbrev pub Serves : (ℕ → GotPart) → ℕ → List (Text × Bool) → Type 0
Serves got i [] = Unit {0}
Serves got i ((x, more) ∷ fs) = (got i ≡ part x more) × Serves got (suc i) fs

receive_parts-frames :
    (got : ℕ → GotPart) (depth i total : ℕ) (ps : List Text) (x : Text) (xs : List Text)
    → Serves got i (frames_of (x ∷ xs))
    → length (x ∷ xs) ≤ depth
    → (j : ℕ) × (receive_parts got depth i total ps
        ≡ some (all_come (total + total_size (x ∷ xs)) (ps ++ x ∷ xs) j))
unfolding receive_parts
receive_parts-frames got zero i total ps x xs v l = absurd (omega (arith, l))
receive_parts-frames got (suc depth) i total ps x [] (g, v) l = (
  suc i,
  rw (g, receive_parts) (ap (λ n. some (all_come n (ps ++ x ∷ []) (suc i))) (omega arith)),
)
receive_parts-frames got (suc depth) i total ps x (y ∷ xs) (g, v) l =
    let (j, e) =
      receive_parts-frames got depth (suc i) (total + length x) (ps ++ x ∷ []) y xs v
        (omega (arith, l)) in
    (
      j,
      rw (g, receive_parts)
          (e
            ∙ ap (λ n. some (all_come n ((ps ++ x ∷ []) ++ y ∷ xs) j)) (omega arith)
            ∙ ap (λ zs. some (all_come (total + total_size (x ∷ y ∷ xs)) zs j))
                (append_assoc ps (x ∷ []) (y ∷ xs))),
    )

served_vector :
    (got : ℕ → GotPart) (dontwait : Bool) (timeout : ℤ) (depth fuel : ℕ) (old : List Text)
    (s : Socket) (x : Text) (xs : List Text)
    → Serves got 0 (frames_of (x ∷ xs))
    → length (x ∷ xs) ≤ depth
    → receive_vector got dontwait timeout depth (suc fuel) old s
      ≡ some (all_received (0 + total_size (x ∷ xs)) (old ++ x ∷ xs) s)
unfolding receive_vector vector_rounds
served_vector got dontwait timeout depth fuel old s x xs v l =
    let (j, e) = receive_parts-frames got depth 0 0 old x xs v l in rw (e, vector_rounds) refl

-- Parts, at least one, that a send of a vector has handed over, come out of a receive of a vector
-- whose calls bring the frames that were handed over: with fuel for as many parts, it returns at
-- once what the send returned, has appended the parts in their order, and has counted one message
-- and the bytes of all parts.
pub zeromq_round_trip :
    (zmq : Zmq) (dontwait : Bool) (timeout : ℤ) (fuel : ℕ) (x : Text) (xs : List Text)
    (s sent : Socket) (k : ℕ) (p : Progress) (got : ℕ → GotPart) (dontwait' : Bool) (timeout' : ℤ)
    (depth fuel' : ℕ) (old : List Text) (s' : Socket)
    → send_vector zmq dontwait timeout fuel (x ∷ xs) (record { calls = 0; frames = [] }) s
      ≡ some (pos k, (p, sent))
    → Serves got 0 (p.frames)
    → length (x ∷ xs) ≤ depth
    → receive_vector got dontwait' timeout' depth (suc fuel') old s'
      ≡ some (all_received k (old ++ x ∷ xs) s')
zeromq_round_trip zmq dontwait timeout fuel x xs s sent k p got dontwait' timeout' depth fuel' old
      s' e v l =
    elim (send_vector-Reported zmq dontwait timeout fuel (x ∷ xs) _ s (pos k, (p, sent)) e) [
      | inl (a, f, u) ↦
          let q : k ≡ total_size (x ∷ xs) = cc in
          let n : k ≡ 0 + total_size (x ∷ xs) = omega (arith, q) in
          subst
            (λ c.
              receive_vector got dontwait' timeout' depth (suc fuel') old s'
              ≡ some (all_received c (old ++ x ∷ xs) s'))
            (sym n)
            (served_vector got dontwait' timeout' depth fuel' old s' x xs (subst (Serves got 0) f v)
              l)
      | inr (inl (a, b, c)) ↦ cc
      | inr (inr (a, b)) ↦ cc
    ]
