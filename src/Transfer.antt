-- ===== src/Transfer.antt =====
-- The loop that the socket calls of the other transports have in common: SendImpl and ReceiveImpl of
-- fairmq/shmem/FairMQSocketSHM.cxx and of fairmq/nanomsg/FairMQSocketNN.cxx. The loop stops with none
-- where its fuel, the number of rounds, does not suffice.
pub mod Settles
use bachelor_fair_mq.Base.{
  ℕ, zero, suc, ◌+◌, ◌%◌, ◌^◌, ℤ, negsuc, Bool, Option, none, some, if◌then◌else◌,
}
use bachelor_fair_mq.Zeromq.{Socket}
use bachelor_fair_mq.Zeromq.Send.{next_elapsed, gives_up}

-- What the library answers to one call: it has taken or brought something; it asks to try again, with
-- what the loop reads in fInterrupted behind that; or the loop ends with a number.
pub data Reply {ℓ} (A : Type ℓ) : Type ℓ where
  taken : A → Reply A
  again : Bool → Reply A
  ended : ℤ → Reply A

-- How the loop ends.
pub data Finish {ℓ} (A : Type ℓ) : Type ℓ where
  finished : A → Finish A
  returned : ℤ → Finish A

module _ {ℓ} {A : Type ℓ} where
  abbrev pub settle : Bool → ℤ → ℕ → Reply A → Option (Finish A) → Option (Finish A)
  settle dontwait timeout elapsed (taken a) rest = some (finished a)
  settle dontwait timeout elapsed (again interrupted) rest =
      if gives_up dontwait interrupted timeout elapsed then some (returned (negsuc 1)) else rest
  settle dontwait timeout elapsed (ended r) rest = some (returned r)

  -- The rounds from the i-th call on, with the time that has elapsed.
  unfoldable pub rounds : (ℕ → Reply A) → Bool → ℤ → ℕ → ℕ → ℕ → ℕ → Option (Finish A)
  rounds reply dontwait timeout step zero i elapsed = none
  rounds reply dontwait timeout step (suc fuel) i elapsed =
      let elapsed' = next_elapsed timeout step elapsed in
      let rest = rounds reply dontwait timeout step fuel (suc i) elapsed' in
      settle dontwait timeout elapsed' (reply i) rest

-- What a call makes of the end of its loop.
abbrev pub ran {ℓ ℓ'} : {A : Type ℓ} {B : Type ℓ'} → (A → B) → Option A → Option B
ran f none = none
ran f (some a) = some (f a)

abbrev pub made_by {ℓ} : {A : Type ℓ} → Bool → ℤ → ℕ → Reply A → ℕ → ℕ
made_by dontwait timeout elapsed (taken a) rest = 1
made_by dontwait timeout elapsed (again interrupted) rest =
    if gives_up dontwait interrupted timeout elapsed then 1 else suc rest
made_by dontwait timeout elapsed (ended r) rest = 1

-- How many calls the loop makes.
unfoldable pub rounds_made {ℓ} : {A : Type ℓ} → (ℕ → Reply A) → Bool → ℤ → ℕ → ℕ → ℕ → ℕ → ℕ
rounds_made reply dontwait timeout step zero i elapsed = 0
rounds_made reply dontwait timeout step (suc fuel) i elapsed =
    let elapsed' = next_elapsed timeout step elapsed in
    let rest = rounds_made reply dontwait timeout step fuel (suc i) elapsed' in
    made_by dontwait timeout elapsed' (reply i) rest

-- The counters of bytes and messages, of 64 bits.
abbrev pub count_tx : ℕ → Socket → Socket
count_tx n s = record s {
  bytes_tx = (s.bytes_tx + n) % 2 ^ 64;
  messages_tx = (s.messages_tx + 1) % 2 ^ 64;
}

abbrev pub count_rx : ℕ → Socket → Socket
count_rx n s = record s {
  bytes_rx = (s.bytes_rx + n) % 2 ^ 64;
  messages_rx = (s.messages_rx + 1) % 2 ^ 64;
}
