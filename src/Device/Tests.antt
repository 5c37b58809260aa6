-- ===== src/Device/Tests.antt =====
-- A device that binds a socket.
use bachelor_fair_mq.Base.{
  ℕ, ◌+◌, Bool, true, ◌++◌, some, Text, codes, decimal, ◌≡◌, refl, ltb, rfind,
}
use bachelor_fair_mq.Device.BindEndpoint.{bind_attempts, candidate, replace_port}

-- The configured endpoint is in use.
abbrev next_free : ℕ → Text → Bool
next_free n endpoint = ltb 0 n

abbrev ports : ℕ → ℕ
ports n = 22000 + n

abbrev endpoint : Text
endpoint = codes "tcp://*:5555"

next_bound :
    bind_attempts next_free ports 1000 5 0 endpoint ≡ some (true, codes "tcp://*:" ++ decimal 22001)
unfolding bind_attempts replace_port rfind
next_bound = refl

-- An address of another protocol loses its name.
ipc_candidate : candidate ports (codes "ipc://name") 1 ≡ codes "ipc:" ++ decimal 22001
unfolding replace_port rfind
ipc_candidate = refl
