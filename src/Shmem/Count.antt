-- ===== src/Shmem/Count.antt =====
-- The chunks of the segment, counted: those that messages own and those on the way
-- (fairmq/shmem/FairMQMessageSHM.cxx).
use bachelor_fair_mq.Base.{
  ℕ, ◌+◌, ◌==◌, ◌≤◌, ℤ, pos, negsuc, Bool, true, false, List, [], ◌∷◌, ◌++◌, ◌≡◌, refl, arith,
  if◌then◌else◌,
}
use bachelor_fair_mq.Shmem.{MetaHeader, Message, member, remove}

-- How often a handle is in a list.
unfoldable pub count : ℕ → List ℕ → ℕ
count h [] = 0
count h (k ∷ ks) = (if h == k then 1 else 0) + count h ks

-- Whether a handle of a region is the chunk of the segment: 1 or 0.
abbrev pub chunk : ℕ → ℕ → ℤ → ℕ
chunk h region (pos k) = if region == 0 then (if h == k then 1 else 0) else 0
chunk h region (negsuc n) = 0

-- A message owns its chunk until it is sent.
abbrev pub held : ℕ → Bool → ℕ → ℤ → ℕ
held h true region handle = 0
held h false region handle = chunk h region handle

abbrev pub owned : ℕ → Message → ℕ
owned h m = held h (m.queued) (m.region_id) (m.handle)

unfoldable pub owned_by : ℕ → List Message → ℕ
owned_by h [] = 0
owned_by h (m ∷ ms) = owned h m + owned_by h ms

unfoldable pub carried : ℕ → List MetaHeader → ℕ
carried h [] = 0
carried h (k ∷ ks) = chunk h (k.region_id) (k.handle) + carried h ks

unfoldable pub flying : ℕ → List (List MetaHeader) → ℕ
flying h [] = 0
flying h (hs ∷ ws) = carried h hs + flying h ws

pub owned_by-append :
    (h : ℕ) (ms ns : List Message) → owned_by h (ms ++ ns) ≡ owned_by h ms + owned_by h ns
unfolding owned_by
owned_by-append h [] ns = omega arith
owned_by-append h (m ∷ ms) ns = omega (arith, owned_by-append h ms ns)

pub flying-append :
    (h : ℕ) (vs ws : List (List MetaHeader)) → flying h (vs ++ ws) ≡ flying h vs + flying h ws
unfolding flying
flying-append h [] ws = omega arith
flying-append h (v ∷ vs) ws = omega (arith, flying-append h vs ws)

-- A handle that is counted is a member.
pub count-member : (h : ℕ) (ks : List ℕ) → 1 ≤ count h ks → member h ks ≡ true
unfolding count member
count-member h [] c = absurd (omega arith)
count-member h (k ∷ ks) c = ground (arith, count-member h ks)

-- A removal takes one of a member, and none of the others.
pub count-remove :
    (j h : ℕ) (ks : List ℕ)
    → member h ks ≡ true
    → count j (remove h ks) + (if j == h then 1 else 0) ≡ count j ks
unfolding count member remove
count-remove j h [] c = cc
count-remove j h (k ∷ ks) c = ground (arith, count-remove j h ks)

pub count-zero : (ks : List ℕ) → ((h : ℕ) → count h ks ≡ 0) → ks ≡ []
unfolding count
count-zero [] z = refl
count-zero (k ∷ ks) z = absurd (ground (arith, z k))
