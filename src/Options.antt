-- ===== src/Options.antt =====
-- The channel options of a device (fairmq/options): a property tree, from JSON or from the command
-- line, is read into the channels by name. boost::property_tree is a parameter.
pub mod Parser
pub mod SubOptions
pub mod Fresh
pub mod Maps
pub mod Named
mod Tests
use bachelor_fair_mq.Base.{ℤ, List, [], ◌∷◌, Text, Option, none, some, ◌≡◌, text_eq, if◌then◌else◌}

-- A tree is a value and a list of trees by their keys, in order; `to_int` is how a value is read as an
-- int.
pub record PropertyTree : Type 1 where
  pub Tree : Type 0
  pub node : Text → List (Text × Tree) → Tree
  pub value : Tree → Text
  pub children : Tree → List (Text × Tree)
  pub value-node : (v : Text) (ts : List (Text × Tree)) → value (node v ts) ≡ v
  pub children-node : (v : Text) (ts : List (Text × Tree)) → children (node v ts) ≡ ts
  pub to_int : Text → Option ℤ
