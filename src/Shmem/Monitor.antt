-- ===== src/Shmem/Monitor.antt =====
-- The monitor of the shared memory (fairmq/shmem/Monitor.cxx): CheckSegment and the heartbeats, which
-- come from the control queue, as steps. Times are in milliseconds from the start of the monitor;
-- the opening of the segment is a parameter of a step, and Cleanup counts by its calls.
use bachelor_fair_mq.Base.{
  ℕ, suc, ◌+◌, ◌-◌, ◌*◌, ◌%◌, ◌^◌, ◌≤◌, ltb, Bool, true, false, ◌&&◌, List, [], ◌∷◌, ◌≡◌, arith,
  if◌then◌else◌, and-eq_true, refl, subst,
}

pub record Monitor : Type 0 where
  pub self_destruct : Bool
  pub seen_once : Bool
  pub is_daemon : Bool
  pub timeout : ℕ
  pub terminating : Bool
  pub heartbeat_triggered : Bool
  pub last_heartbeat : ℕ
  pub cleanups : ℕ

-- The constructor.
abbrev pub start_monitor : Bool → Bool → ℕ → Monitor
start_monitor self_destruct is_daemon timeout = record {
  self_destruct = self_destruct;
  seen_once = false;
  is_daemon = is_daemon;
  timeout = timeout;
  terminating = false;
  heartbeat_triggered = false;
  last_heartbeat = 0;
  cleanups = 0;
}

-- Cleanup with what follows it.
abbrev pub clean : Monitor → Monitor
clean m = record m {
  cleanups = suc (m.cleanups);
  heartbeat_triggered = false;
  terminating = if m.self_destruct then true else m.terminating;
}

-- The time since the last heartbeat, as an unsigned int.
abbrev pub duration : ℕ → Monitor → ℕ
duration now m = (now - m.last_heartbeat) % 2 ^ 32

-- CheckSegment where the segment is opened.
unfoldable pub check_open : ℕ → Monitor → Monitor
check_open now m =
    let n : Monitor = record m { seen_once = true } in
    if n.heartbeat_triggered && ltb (n.timeout) (duration now n) then clean n else n

-- And where it is not there.
abbrev pub terminate_seen : Monitor → Monitor
terminate_seen m = record m {
  terminating = if m.self_destruct && m.seen_once then true else m.terminating;
}

unfoldable pub check_missing : ℕ → Monitor → Monitor
check_missing now m =
    let n : Monitor = record m { heartbeat_triggered = false } in
    terminate_seen
      (if n.is_daemon && ltb (n.timeout * 2 % 2 ^ 32) (duration now n) then clean n else n)

-- A heartbeat that MonitorHeartbeats receives, or a call of CheckSegment.
pub data Tick : Type 0 where
  beats : ℕ → Tick
  checks : ℕ → Bool → Tick

abbrev pub tick : Tick → Monitor → Monitor
tick (beats now) m = record m { heartbeat_triggered = true; last_heartbeat = now }
tick (checks now true) m = check_open now m
tick (checks now false) m = check_missing now m

-- Both loops end where fTerminating is set.
unfoldable pub run_monitor : List Tick → Monitor → Monitor
run_monitor [] m = m
run_monitor (t ∷ ts) m = if m.terminating then m else run_monitor ts (tick t m)

unfoldable pub heartbeats : List Tick → ℕ
heartbeats [] = 0
heartbeats (beats now ∷ ts) = suc (heartbeats ts)
heartbeats (checks now opened ∷ ts) = heartbeats ts

abbrev pub owed : Bool → ℕ
owed true = 1
owed false = 0

-- The cleanups, with one that is owed, are so many at most, and the monitor is no daemon.
abbrev Owes : Monitor → ℕ → Type 0
Owes m k = (m.is_daemon ≡ false) × (m.cleanups + owed (m.heartbeat_triggered) ≤ k)

cleaned-Owes :
    (c : Bool) (m : Monitor) (k : ℕ)
    → (c ≡ true → Owes (clean m) k)
    → (c ≡ false → Owes m k)
    → Owes (if c then clean m else m) k
cleaned-Owes true m k f g = f refl
cleaned-Owes false m k f g = g refl

owed_step : (b : Bool) (n k : ℕ) → b ≡ true → n + owed b ≤ k → suc n + 0 ≤ k
owed_step true n k e o = omega (arith, o)
owed_step false n k e o = cc

owed_less : (b : Bool) (n k : ℕ) → n + owed b ≤ k → n + 0 ≤ k
owed_less true n k o = omega (arith, o)
owed_less false n k o = o

check_open-Owes : (now : ℕ) (m : Monitor) (k : ℕ) → Owes m k → Owes (check_open now m) k
unfolding check_open
check_open-Owes now m k (d, o) =
    cleaned-Owes _ (record m { seen_once = true }) k
      (λ e. (d, owed_step (m.heartbeat_triggered) (m.cleanups) k ((and-eq_true _ _ e).0) o))
      (λ e. (d, o))

apart : (b : Bool) → b ≡ true → b ≡ false → ⊥
apart b e f = cc

check_missing-Owes : (now : ℕ) (m : Monitor) (k : ℕ) → Owes m k → Owes (check_missing now m) k
unfolding check_missing
check_missing-Owes now m k (d, o) =
    cleaned-Owes _ (record m { heartbeat_triggered = false }) k
      (λ e. absurd (apart (m.is_daemon) ((and-eq_true _ _ e).0) d))
      (λ e. (d, owed_less (m.heartbeat_triggered) (m.cleanups) k o))

weaker : (m : Monitor) (k h : ℕ) → Owes m k → Owes m (k + h)
weaker m k h (d, o) = (d, omega (arith, o))

beat_more : (b : Bool) (n k : ℕ) → n + owed b ≤ k → n + 1 ≤ suc k
beat_more true n k o = omega (arith, o)
beat_more false n k o = omega (arith, o)

tick-Owes :
    (t : Tick) (ts : List Tick) (m : Monitor) (k : ℕ)
    → Owes m k
    → (j : ℕ) × ((j + heartbeats ts ≡ k + heartbeats (t ∷ ts)) × Owes (tick t m) j)
unfolding heartbeats
tick-Owes (beats now) ts m k (d, o) =
    (suc k, (omega arith, (d, beat_more (m.heartbeat_triggered) (m.cleanups) k o)))
tick-Owes (checks now true) ts m k o = (k, (refl, check_open-Owes now m k o))
tick-Owes (checks now false) ts m k o = (k, (refl, check_missing-Owes now m k o))

stopped_or : (b : Bool) (m n : Monitor) (k : ℕ) → Owes m k → Owes n k → Owes (if b then m else n) k
stopped_or true m n k p q = p
stopped_or false m n k p q = q

run_monitor-Owes :
    (ts : List Tick) (m : Monitor) (k : ℕ) → Owes m k → Owes (run_monitor ts m) (k + heartbeats ts)
unfolding run_monitor heartbeats
run_monitor-Owes [] m k (d, o) = (d, omega (arith, o))
run_monitor-Owes (t ∷ ts) m k o =
    stopped_or (m.terminating) m _ (k + heartbeats (t ∷ ts)) (weaker m k (heartbeats (t ∷ ts)) o) (
      let (j, (e, p)) = tick-Owes t ts m k o in
      subst (Owes (run_monitor ts (tick t m))) e (run_monitor-Owes ts (tick t m) j p))

-- From a new monitor that is no daemon, in any sequence of heartbeats and of checks, each with the
-- segment there or not: it cleans up at most as often as heartbeats have come, and one time less
-- while a heartbeat is not answered by a cleanup.
pub run_monitor-cleanups :
    (self_destruct : Bool) (timeout : ℕ) (ts : List Tick)
    → (run_monitor ts (start_monitor self_destruct false timeout)).cleanups
        + owed ((run_monitor ts (start_monitor self_destruct false timeout)).heartbeat_triggered)
      ≤ heartbeats ts
run_monitor-cleanups self_destruct timeout ts =
    let (d, o) =
      run_monitor-Owes ts (start_monitor self_destruct false timeout) 0 (refl, omega arith) in
    omega (arith, o)
