-- ===== src/Device/Inputs/Tests.antt =====
-- A device with two input channels.
use bachelor_fair_mq.Base.{
  has, ℕ, ℤ, pos, ◌≡◌, refl, List, [], ◌∷◌, Text, codes, text_eq, Bool, true, false, ok, lookup,
}
use bachelor_fair_mq.Transports.{default}
use bachelor_fair_mq.Channel.{Channel, new}
use bachelor_fair_mq.Device.Inputs.{
  Call, polled, handle_multiple_channel_input, register, no_inputs, add_key, on_data,
}
use bachelor_fair_mq.Device.Inputs.Rounds.{handle_multiple_channel_input-asked}

-- "a" has one subchannel and a callback for messages; "b" has two, and both callbacks.
abbrev channels : List (Text × List Channel)
channels = (codes "b", new ∷ new ∷ []) ∷ (codes "a", new ∷ []) ∷ []

abbrev registrations : List (Bool × Text)
registrations = (false, codes "a") ∷ (false, codes "b") ∷ (true, codes "b") ∷ []

-- All are ready.
abbrev ready : Text → ℕ → Bool
ready k i = true

abbrev receive : List Call → Call → ℤ
receive h c = pos 1

-- The callback ends the work at the second subchannel of "b".
abbrev first_of_two : List Call → Call → Bool
first_of_two (c ∷ d ∷ h) e = false
first_of_two h e = true

abbrev a_call : Call
a_call = record { parts = false; channel = codes "a"; index = 0 }

abbrev b_call : ℕ → Call
b_call i = record { parts = true; channel = codes "b"; index = i }

handle_multiple_channel_input-asked_example :
    handle_multiple_channel_input receive first_of_two
      (register registrations no_inputs)
      channels
      (ready ∷ ready ∷ [])
    ≡ ok (polled (false, a_call ∷ b_call 0 ∷ b_call 1 ∷ []))
unfolding lookup text_eq has add_key on_data new
handle_multiple_channel_input-asked_example =
    handle_multiple_channel_input-asked receive first_of_two default (false, codes "a")
      ((false, codes "b") ∷ (true, codes "b") ∷ []) channels (ready ∷ ready ∷ [])
      ((_, (_, (refl, refl))), ((_, (_, (refl, refl))), ((_, (_, (refl, refl))), tt)))
