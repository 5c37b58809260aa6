-- ===== src/Shmem/Tests.antt =====
-- The shared memory transport (fairmq/shmem) on concrete messages.
use bachelor_fair_mq.Base.{
  ℕ, ◌≤◌, zero, suc, ◌+◌, ◌<◌, ◌≡◌, ◌≢◌, ◌++◌, map, codes, pos, Bool, true, false, List, [], ◌∷◌,
  some, refl, inr, arith,
}
use bachelor_fair_mq.Zeromq.{new, eagain}
use bachelor_fair_mq.Zeromq.Arrival.{waited}
use bachelor_fair_mq.Transfer.{count_rx, rounds}
use bachelor_fair_mq.Transfer.Settles.{Tried, Leads}
use bachelor_fair_mq.Shmem.{
  MetaHeader, holding, blank, Message, Store, unmade, empty_message, write, header_of, deallocate,
}
use bachelor_fair_mq.Shmem.Chunk.{
  World, got, full, taken, late, destroy, rebuild_sized, find_region, has_region,
}
use bachelor_fair_mq.Shmem.Socket.{
  Call, works, fails, Sent, send_vector, after_send_vector, take_header, received, receive_vector,
  total_size, checked, brought, after_receive_vector,
}
use bachelor_fair_mq.Shmem.Vectors.{vector_round_trip, receive_vector-Leads}
use bachelor_fair_mq.Shmem.Region.{block_of, destroy-acknowledged}
use bachelor_fair_mq.Shmem.Gaps.{rebuild_sized-destroys}
use bachelor_fair_mq.Shmem.Monitor.{
  run_monitor, start_monitor, beats, checks, owed, heartbeats, check_open, run_monitor-cleanups,
}

-- An empty segment, and a world that allocates at 3 behind one try on a full segment.
abbrev clear : Store
clear = record { allocated = []; misused = []; memory = λ r h. []; regions = []; acks = [] }

abbrev world : World
world = record {
  allocs = λ i. elim i [ zero ↦ full false | suc n ↦ got 3 ];
  meta_init = true;
  opens = λ id. true;
  queue = λ i. elim i [ zero ↦ late false | suc n ↦ taken ];
}

abbrev stored : Store
stored = record clear { allocated = 3 ∷ []; memory = write 0 3 (codes "a") (λ r h. []) }

abbrev bare : Message
bare = record unmade { handle = pos 3; size = 1; meta_created = true }

abbrev made : Message
made = record bare { frame = holding (header_of bare) }

abbrev works_at_once : ℕ → Call (Unit {0})
works_at_once i = works tt

abbrev never : ℕ → Bool
never i = false

abbrev sent_message : Message
sent_message = record bare { queued = true; frame = blank }

abbrev received_message : Message
received_message =
    take_header (header_of bare) (record empty_message { frame = holding (header_of bare) })

-- No chunk is left.
abbrev emptied : Store
emptied = record stored { allocated = [] }

-- A second chunk beside the first, sent together.
abbrev other_bare : Message
other_bare = record unmade { handle = pos 8; size = 4; meta_created = true }

abbrev other_made : Message
other_made = record other_bare { frame = holding (header_of other_bare) }

abbrev both_sent : Sent (List Message)
both_sent = after_send_vector (header_of unmade) (made ∷ other_made ∷ []) new

abbrev on_the_way : List MetaHeader
on_the_way = header_of bare ∷ header_of other_bare ∷ []

both_sent_run :
    send_vector (header_of unmade) never works_at_once true (pos 0) 1 (made ∷ other_made ∷ []) new
    ≡ some both_sent
unfolding send_vector rounds
both_sent_run = refl

abbrev brings_both : ℕ → Call (List MetaHeader)
brings_both i = works on_the_way

vector_round_trip_example :
    (parts : List Message) × ((receive_vector never brings_both true (pos 0) 1 [] new
        ≡ some
            (received (pos 5) ([] ++ parts) (count_rx (total_size (made ∷ other_made ∷ [])) new)))
      × (map header_of parts ≡ on_the_way))
unfolding total_size
vector_round_trip_example =
    vector_round_trip (header_of unmade) never works_at_once true (pos 0) 1 made other_made [] new
      both_sent on_the_way never brings_both true (pos 0) 0 [] new
      ((refl, λ g. refl), ((refl, λ g. refl), tt)) both_sent_run refl refl refl

abbrev busy : ℕ → Call (List MetaHeader)
busy i = fails eagain false

limited : pos 250 ≢ pos 0
limited e = cc

receive_vector-Leads_example :
    (n : ℕ) × Tried (checked never busy) 0 n
    × Leads
        (brought (after_receive_vector [] new) [] new)
        false
        (pos 250)
        (waited (pos 250) 100 0 (suc n))
        (checked never busy n)
        (receive_vector never busy false (pos 250) (250 + 1) [] new)
receive_vector-Leads_example =
    receive_vector-Leads never busy false (pos 250) [] new (inr limited) (omega arith, omega arith)

-- A message at offset 64 of region 7, whose queue is full once.
abbrev of_region : Message
of_region = record unmade { region_id = 7; handle = pos 64; size = 16; hint = 5 }

once_late : (k : ℕ) → k < 1 → world.queue k ≡ late false
once_late zero h = refl
once_late (suc k) h = absurd (omega (arith, h))

region_found : (find_region (world.opens) of_region clear).0.region_ptr ≡ true
unfolding has_region
region_found = refl

destroy-acknowledged_example :
    (t : Store) × ((destroy world (suc 1 + 2) of_region clear ≡ some t)
      × ((t.acks ≡ [] ++ (7, block_of 64 of_region) ∷ [])
          × ((t.allocated ≡ []) × (t.misused ≡ []))))
destroy-acknowledged_example =
    destroy-acknowledged world 1 2 64 of_region clear refl refl (λ e. omega (arith, e)) region_found
      once_late refl

-- The sender of a message rebuilds its own, and destroys it.
rebuild_sized-destroys_example :
    (b : Bool) × ((n : Message) × ((rebuild_sized world 2 40 sent_message stored
          ≡ some (b, (n, stored)))
        × (destroy world 2 n stored ≡ some (deallocate 3 stored))))
rebuild_sized-destroys_example =
    rebuild_sized-destroys world 2 40 world 2 3 sent_message stored refl refl

-- A heartbeat, a check in time, two checks too late, and one where the segment is gone.
run_monitor-cleanups_example :
    (run_monitor
        (beats 100 ∷ checks 200 true ∷ checks 9000 true ∷ checks 9100 true ∷ checks 9200 false ∷ [])
        (start_monitor false false 5000)).cleanups
      + owed (
          (run_monitor
            (beats 100
              ∷ checks 200 true
              ∷ checks 9000 true
              ∷ checks 9100 true
              ∷ checks 9200 false
              ∷ [])
            (start_monitor false false 5000)).heartbeat_triggered)
    ≤ 1
unfolding heartbeats
run_monitor-cleanups_example =
    run_monitor-cleanups false 5000
      (beats 100 ∷ checks 200 true ∷ checks 9000 true ∷ checks 9100 true ∷ checks 9200 false ∷ [])

-- It has cleaned up once.
cleaned_once :
    (run_monitor
      (beats 100 ∷ checks 200 true ∷ checks 9000 true ∷ checks 9100 true ∷ [])
      (start_monitor false false 5000)).cleanups
    ≡ 1
unfolding run_monitor check_open
cleaned_once = refl
