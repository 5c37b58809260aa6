-- ===== src/Shmem/Ownership.antt =====
-- Every chunk of the segment has one owner (fairmq/shmem/FairMQMessageSHM.cxx and
-- fairmq/shmem/FairMQSocketSHM.cxx).
use bachelor_fair_mq.Base.{ℕ, ◌+◌, [], Option, none, some, ◌≡◌, All}
use bachelor_fair_mq.Shmem.{MetaHeader, Message}
use bachelor_fair_mq.Shmem.System.{System, Fit}
use bachelor_fair_mq.Shmem.Count.{count, owned, owned_by, flying}

-- The invariant: each handle is allocated as often as messages own it and headers on the way carry
-- it; nothing was deallocated that is not allocated; and the headers in frames fit.
abbrev pub Accounted : System → Type 0
Accounted (s, (ms, ws)) =
    (s.misused ≡ [])
    × (All Fit ms × ((h : ℕ) → count h (s.allocated) ≡ owned_by h ms + flying h ws))

-- A region's message owns no chunk of the segment.
abbrev pub Outside : Option Message → Type 0
Outside none = Unit {0}
Outside (some m) = Fit m × ((h : ℕ) → owned h m ≡ 0)

abbrev sized : ℕ → MetaHeader → MetaHeader
sized size k = record k { size = size }
