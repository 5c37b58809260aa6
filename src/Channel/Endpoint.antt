-- ===== src/Channel/Endpoint.antt =====
-- One endpoint of a channel's address, as FairMQChannel::ValidateChannel checks it.
use bachelor_fair_mq.Base.{
  ℕ, Bool, true, false, Option, none, some, List, [], ◌∷◌, Text, codes, Outcome, ok, exits, ◌>>=◌,
  or_throw, if◌then◌else◌, starts_with, substr, find, one_of, ◌==◌, ◌||◌,
}

abbrev pub socket_methods : List Text
socket_methods = codes "bind" ∷ codes "connect" ∷ []

-- The method modifiers: `@` binds, `+` and `>` connect.
abbrev pub is_modifier : ℕ → Bool
is_modifier c = c == b'@' || c == b'+' || c == b'>'

-- `addressString != ""` of the protocols that want a name.
abbrev pub nonempty : Text → Bool
nonempty [] = false
nonempty (c ∷ s) = true

-- `find(…) != npos`.
found : Option ℕ → Bool
found none = false
found (some i) = true

-- The check of the address behind the modifier. The text of verbs:// is cut at 9, one byte late.
unfoldable pub check_address : Text → Outcome Bool
unfolding found
check_address a =
    if starts_with a (codes "tcp://")
    then (do s ← or_throw (substr a 6); ok (found (find b':' s)))
    else if starts_with a (codes "ipc://")
    then (do s ← or_throw (substr a 6); ok (nonempty s))
    else if starts_with a (codes "inproc://")
    then (do s ← or_throw (substr a 9); ok (nonempty s))
    else if starts_with a (codes "verbs://")
    then (do s ← or_throw (substr a 9); ok (nonempty s))
    else ok false

-- The check of an endpoint; `endpoint[0]` of an empty text is the byte 0.
unfoldable pub check_endpoint : Text → Text → Outcome Bool
check_endpoint method [] = if one_of socket_methods method then check_address [] else exits
check_endpoint method (c ∷ s) =
    if is_modifier c
    then check_address s
    else if one_of socket_methods method
    then check_address (c ∷ s)
    else exits

-- The loop over the endpoints ends at the first that is refused.
unfoldable pub check_endpoints : Text → List Text → Outcome Bool
check_endpoints method [] = ok true
check_endpoints method (e ∷ es) = do
  good ← check_endpoint method e
  if good then check_endpoints method es else ok false
