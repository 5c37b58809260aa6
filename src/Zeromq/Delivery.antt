-- ===== src/Zeromq/Delivery.antt =====
-- What a send on the ZeroMQ socket has handed over when it returns
-- (fairmq/zeromq/FairMQSocketZMQ.cxx).
use mathlib.Core.List.{append_assoc, append-nil}
use bachelor_fair_mq.Base.{
  ℕ, zero, suc, ◌+◌, ◌%◌, ◌^◌, ℤ, pos, negsuc, Bool, true, false, not, List, [], ◌∷◌, ◌++◌, Option,
  none, some, Text, length, ◌≡◌, refl, sym, ap, ◌∙◌, subst, ◌⊎◌, inl, inr, arith, Bool-cases,
}
use bachelor_fair_mq.Zeromq.{
  Socket, Errno, eagain, eterm, other, Answer, accepted, refused, Zmq, Progress,
}
use bachelor_fair_mq.Zeromq.Send.{
  Round, all_sent, stopped, is_empty, send_parts, next_elapsed, gives_up, conclude, send_rounds,
  count_sent, counted, send_impl, send_vector,
}

-- The frames of a message of several parts, and their bytes together.
abbrev pub frames_of : List Text → List (Text × Bool)
frames_of [] = []
frames_of (x ∷ xs) = (x, not (is_empty xs)) ∷ frames_of xs

abbrev pub total_size : List Text → ℕ
total_size [] = 0
total_size (x ∷ xs) = length x + total_size xs

Answer-cases : (a : Answer) → (a ≡ accepted) ⊎ ((e : Errno) × (b : Bool) × (a ≡ refused e b))
Answer-cases accepted = inl refl
Answer-cases (refused e b) = inr (e, b, refl)

-- What a round says holds of the frames.
Told : List Text → Progress → ℕ → Bool → Round × Progress → Type 0
Told xs p total first (all_sent n, q) =
    (n ≡ total + total_size xs) × (q.frames ≡ p.frames ++ frames_of xs)
Told xs p total first (stopped eagain b, q) = (first ≡ true) × (q.frames ≡ p.frames)
Told xs p total first (stopped _ b, q) = Unit {0}

Told-further :
    (x : Text) (xs : List Text) (p : Progress) (total : ℕ) (first : Bool) (r : Round × Progress)
    → Told xs
        (record { calls = suc (p.calls); frames = p.frames ++ (x, not (is_empty xs)) ∷ [] })
        (total + length x)
        false
        r
    → Told (x ∷ xs) p total first r
unfolding Told
Told-further x xs p total first (all_sent n, q) (t, f) =
    (omega (arith, t), f ∙ append_assoc (p.frames) ((x, not (is_empty xs)) ∷ []) (frames_of xs))
Told-further x xs p total first (stopped eagain b, q) (t, f) = cc
Told-further x xs p total first (stopped eterm b, q) t = tt
Told-further x xs p total first (stopped other b, q) t = tt

-- A part as a round takes it.
abbrev taken : Text → List Text → Progress → Progress
taken x xs p = record { calls = suc (p.calls); frames = p.frames ++ (x, not (is_empty xs)) ∷ [] }

send_parts_accepted :
    (zmq : Zmq) (first : Bool) (x : Text) (xs : List Text) (p : Progress) (total : ℕ)
    → zmq.answer (p.calls) first ≡ accepted
    → send_parts zmq first (x ∷ xs) p total
      ≡ send_parts zmq false xs (taken x xs p) (total + length x)
unfolding send_parts
send_parts_accepted zmq first x xs p total h = rw (send_parts, h) refl

send_parts_refused :
    (zmq : Zmq) (first : Bool) (x : Text) (xs : List Text) (p : Progress) (total : ℕ) (e : Errno)
    (b : Bool)
    → zmq.answer (p.calls) first ≡ refused e b
    → send_parts zmq first (x ∷ xs) p total ≡ (stopped e b, record p { calls = suc (p.calls) })
unfolding send_parts
send_parts_refused zmq first x xs p total e b h = rw (send_parts, h) refl

-- Only a first part is refused with EAGAIN.
first_again :
    (zmq : Zmq) (first : Bool) (i : ℕ) (b : Bool)
    → zmq.answer i first ≡ refused eagain b
    → first ≡ true
first_again zmq true i b h = refl
first_again zmq false i b h = elim (zmq.later_again i b h) [ ]

refused-Told :
    (xs : List Text) (p : Progress) (total : ℕ) (first : Bool) (e : Errno) (b : Bool)
    → (e ≡ eagain → first ≡ true)
    → Told xs p total first (stopped e b, record p { calls = suc (p.calls) })
unfolding Told
refused-Told xs p total first eagain b h = (h refl, refl)
refused-Told xs p total first eterm b h = tt
refused-Told xs p total first other b h = tt

send_parts-Told :
    (zmq : Zmq) (first : Bool) (xs : List Text) (p : Progress) (total : ℕ)
    → Told xs p total first (send_parts zmq first xs p total)
send_parts-Told zmq first [] p total =
    unfold Told in unfold send_parts in (omega arith, sym (append-nil (p.frames)))
send_parts-Told zmq first (x ∷ xs) p total = elim (Answer-cases (zmq.answer (p.calls) first)) [
  | inl h ↦
      subst (Told (x ∷ xs) p total first) (sym (send_parts_accepted zmq first x xs p total h)) (
        Told-further x xs p total first _
          (send_parts-Told zmq false xs (taken x xs p) (total + length x)))
  | inr (e, b, h) ↦
      subst (Told (x ∷ xs) p total first) (sym (send_parts_refused zmq first x xs p total e b h)) (
        refused-Told (x ∷ xs) p total first e b
          (λ q. first_again zmq first (p.calls) b (h ∙ ap (λ f. refused f b) q)))
]

some-injective {ℓ} : {A : Type ℓ} {a b : A} → some a ≡ some b → a ≡ b
some-injective h = cc

-- What is true of the result of the rounds.
abbrev pub Delivered : List Text → Progress → ℤ × Progress → Type 0
Delivered xs p (pos n, q) = (n ≡ total_size xs) × (q.frames ≡ p.frames ++ frames_of xs)
Delivered xs p (negsuc zero, q) = Unit {0}
Delivered xs p (negsuc (suc zero), q) = q.frames ≡ p.frames
Delivered xs p (negsuc (suc (suc n)), q) = ⊥

Delivered-frames :
    (xs : List Text) (p q : Progress) (result : ℤ × Progress)
    → q.frames ≡ p.frames
    → Delivered xs q result
    → Delivered xs p result
Delivered-frames xs p q (pos n, u) e (t, f) = (t, f ∙ ap (λ fs. fs ++ frames_of xs) e)
Delivered-frames xs p q (negsuc zero, u) e d = tt
Delivered-frames xs p q (negsuc (suc zero), u) e d = d ∙ e
Delivered-frames xs p q (negsuc (suc (suc n)), u) e d = d

conclude-Delivered :
    (xs : List Text) (p : Progress) (dontwait : Bool) (timeout : ℤ) (elapsed : ℕ)
    (round : Round × Progress) (rest : Option (ℤ × Progress)) (result : ℤ × Progress)
    → Told xs p 0 true round
    → (rest ≡ some result → Delivered xs (round.1) result)
    → conclude dontwait timeout elapsed round rest ≡ some result
    → Delivered xs p result
unfolding Told
conclude-Delivered xs p dontwait timeout elapsed (all_sent n, q) rest result (t, f) ih h =
    subst (Delivered xs p) (some-injective h) ((omega (arith, t), f))
conclude-Delivered xs p dontwait timeout elapsed (stopped eagain b, q) rest result (t, f) ih h =
    elim (Bool-cases (gives_up dontwait b timeout elapsed)) [
      | inl e ↦ subst (Delivered xs p) (some-injective (rw e at h)) (f)
      | inr e ↦ Delivered-frames xs p q result f (ih (rw e at h))
    ]
conclude-Delivered xs p dontwait timeout elapsed (stopped eterm b, q) rest result t ih h =
    subst (Delivered xs p) (some-injective h) (tt)
conclude-Delivered xs p dontwait timeout elapsed (stopped other b, q) rest result t ih h =
    subst (Delivered xs p) (some-injective h) (tt)

send_rounds-Delivered :
    (zmq : Zmq) (dontwait : Bool) (timeout : ℤ) (step fuel : ℕ) (xs : List Text) (p : Progress)
    (elapsed : ℕ) (result : ℤ × Progress)
    → send_rounds zmq dontwait timeout step fuel xs p elapsed ≡ some result
    → Delivered xs p result
unfolding send_rounds
send_rounds-Delivered zmq dontwait timeout step zero xs p elapsed result h = cc
send_rounds-Delivered zmq dontwait timeout step (suc fuel) xs p elapsed result h =
    conclude-Delivered xs p dontwait timeout (next_elapsed timeout step elapsed)
      (send_parts zmq true xs p 0) _ result (send_parts-Told zmq true xs p 0)
      (send_rounds-Delivered zmq dontwait timeout step fuel xs _ _ result) h

-- What a send reports: every part was handed over, as one message with its frames in order, and was
-- counted with all its bytes; or -2, and nothing was handed over or counted; or -1, and nothing was
-- counted.
abbrev pub Reported : List Text → Progress → Socket → ℤ × (Progress × Socket) → Type 0
Reported xs p s (r, (q, u)) =
    ((r ≡ pos (total_size xs))
      × (q.frames ≡ p.frames ++ frames_of xs)
      × (u ≡ record s {
        bytes_tx = (s.bytes_tx + total_size xs) % 2 ^ 64;
        messages_tx = (s.messages_tx + 1) % 2 ^ 64;
      }))
    ⊎ (((r ≡ negsuc 1) × (q.frames ≡ p.frames) × (u ≡ s)) ⊎ ((r ≡ negsuc 0) × (u ≡ s)))

counted-Reported :
    (xs : List Text) (p : Progress) (s : Socket) (o : Option (ℤ × Progress))
    (result : ℤ × (Progress × Socket))
    → ((t : ℤ × Progress) → o ≡ some t → Delivered xs p t)
    → counted s o ≡ some result
    → Reported xs p s result
counted-Reported xs p s none result f h = cc
counted-Reported xs p s (some (r, q)) result f h =
    subst (Reported xs p s) (some-injective h) (delivered-Reported r (f (r, q) refl))
  where
    delivered-Reported : (r : ℤ) → Delivered xs p (r, q) → Reported xs p s (r, (q, count_sent r s))
    delivered-Reported (pos n) d = inl (ap pos (d.0), d.1, rw (d.0) refl)
    delivered-Reported (negsuc zero) d = inr (inr (refl, refl))
    delivered-Reported (negsuc (suc zero)) d = inr (inl (refl, d, refl))
    delivered-Reported (negsuc (suc (suc n))) d = elim d [ ]

-- A send of a vector of messages that returns has handed over all the parts as one message, in
-- order, with ZMQ_SNDMORE on all but the last, and counted one message and the bytes of all parts;
-- or it returns -2 with nothing handed over or counted; or -1 with nothing counted.
pub send_vector-Reported :
    (zmq : Zmq) (dontwait : Bool) (timeout : ℤ) (fuel : ℕ) (xs : List Text) (p : Progress)
    (s : Socket) (result : ℤ × (Progress × Socket))
    → send_vector zmq dontwait timeout fuel xs p s ≡ some result
    → Reported xs p s result
unfolding send_vector send_impl
send_vector-Reported zmq dontwait timeout fuel [] p s result h =
    subst (Reported [] p s) (some-injective h) (inr (inr (refl, refl)))
send_vector-Reported zmq dontwait timeout fuel (x ∷ []) p s result h =
    counted-Reported (x ∷ []) p s _ result
      (send_rounds-Delivered zmq dontwait timeout (s.snd_timeout) fuel (x ∷ []) p 0) h
send_vector-Reported zmq dontwait timeout fuel (x ∷ y ∷ xs) p s result h =
    counted-Reported (x ∷ y ∷ xs) p s _ result
      (send_rounds-Delivered zmq dontwait timeout (s.snd_timeout) fuel (x ∷ y ∷ xs) p 0) h
