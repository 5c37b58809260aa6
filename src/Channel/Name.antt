-- ===== src/Channel/Name.antt =====
-- A channel's name, `base[index]`, as FairMQDevice::InitWrapper builds it, and the parts that
-- FairMQChannel::GetChannelPrefix and GetChannelIndex take from it for the keys of the configuration.
use mathlib.Core.List.{append_assoc}
use native.Mathlib.Numerals.{add-one}
use bachelor_fair_mq.Base.{
  ℕ, suc, ◌+◌, ◌≡◌, refl, ap, Option, none, some, [], ◌∷◌, ◌++◌, Text, Outcome, ok, ◌>>=◌, or_throw,
  length, take, drop, rfind, rfind_last, contains, decimal, contains-decimal, contains-append_false,
  inr, arith,
}

-- tools::ToString(base, "[", index, "]").
unfoldable pub channel_name : Text → ℕ → Text
channel_name base index = base ++ b'[' ∷ (decimal index ++ b']' ∷ [])

-- `erase` at npos throws.
unfoldable pub get_channel_prefix : Text → Outcome Text
get_channel_prefix name = do i ← or_throw (rfind b'[' name); ok (take i name)

-- `rfind(…) + 1`, which is 0 where there is no such byte.
after_last : Option ℕ → ℕ
after_last none = 0
after_last (some i) = i + 1

unfoldable pub get_channel_index : Text → Outcome Text
unfolding after_last
get_channel_index name = do
  i ← or_throw (rfind b']' name)
  let s = take i name
  ok (drop (after_last (rfind b'[' s)) s)

take-append : (l r : Text) → take (length l) (l ++ r) ≡ l
take-append [] r = refl
take-append (x ∷ l) r = ap (◌∷◌ x) (take-append l r)

drop_past : (l : Text) (x : ℕ) (r : Text) → drop (suc (length l)) (l ++ x ∷ r) ≡ r
drop_past [] x r = refl
drop_past (y ∷ l) x r = drop_past l x r

drop-append : (l : Text) (x : ℕ) (r : Text) → drop (length l + 1) (l ++ x ∷ r) ≡ r
drop-append l x r = rw add-one (drop_past l x r)

-- The name that is built for a channel gives its parts back, whatever bytes the base has.
pub channel_name_parts :
    (base : Text) (index : ℕ)
    → (get_channel_prefix (channel_name base index) ≡ ok base)
      × (get_channel_index (channel_name base index) ≡ ok (decimal index))
unfolding channel_name get_channel_prefix get_channel_index
channel_name_parts base index = (
  rw (
    rfind_last b'[' base (decimal index ++ b']' ∷ []) (
        contains-append_false b'[' (decimal index) (b']' ∷ [])
          (contains-decimal b'[' index (inr (omega arith))) (unfold contains in refl)),
    take-append base (b'[' ∷ (decimal index ++ b']' ∷ [])),
  ),
  rw
      (
        ← append_assoc base (b'[' ∷ decimal index) (b']' ∷ []),
        rfind_last b']' (base ++ b'[' ∷ decimal index) [] (unfold contains in refl),
        take-append (base ++ b'[' ∷ decimal index) (b']' ∷ []),
        rfind_last b'[' base (decimal index) (contains-decimal b'[' index (inr (omega arith))),
      )
      (ap ok (drop-append base b'[' (decimal index))),
)
