-- ===== src/Shmem/Regions.antt =====
-- What the manager keeps of the regions (fairmq/shmem/Manager.cxx).
use bachelor_fair_mq.Base.{
  ℕ, ◌==◌, Bool, false, List, [], ◌∷◌, Option, none, some, ◌≡◌, refl, arith, if◌then◌else◌,
}
use bachelor_fair_mq.Shmem.{Store}
use bachelor_fair_mq.Shmem.Chunk.{has_region}

-- CreateRegion: none where it gives nullptr.
unfoldable pub create_region : ℕ → Store → Option Store
create_region id s =
    if has_region id (s.regions)
    then none
    else some (record s { regions = (id, false) ∷ s.regions })

unfoldable pub local_regions : List (ℕ × Bool) → List (ℕ × Bool)
local_regions [] = []
local_regions ((id, remote) ∷ rs) =
    let rest = local_regions rs in if remote then rest else (id, remote) ∷ rest

unfoldable pub resume : Store → Store
resume s = record s { regions = local_regions (s.regions) }

unfoldable pub without_region : ℕ → List (ℕ × Bool) → List (ℕ × Bool)
without_region id [] = []
without_region id ((k, r) ∷ rs) =
    let rest = without_region id rs in if id == k then rest else (k, r) ∷ rest

unfoldable pub remove_region : ℕ → Store → Store
remove_region id s = record s { regions = without_region id (s.regions) }

-- A region that was removed is not there.
pub has_region-without :
    (id : ℕ) (rs : List (ℕ × Bool)) → has_region id (without_region id rs) ≡ false
unfolding has_region without_region
has_region-without id [] = refl
has_region-without id ((k, r) ∷ rs) = ground (arith, has_region-without id rs)
