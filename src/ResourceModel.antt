-- ===== src/ResourceModel.antt =====
-- ansible/lib/platform_resource_model.py: validation of the application manifests.
pub mod Values
pub mod TextLists
pub mod Inversion
pub mod Names
pub mod Access
pub mod Topology
pub mod Placement
pub mod Selectors
pub mod Shapes
pub mod Offers
pub mod Manifest
pub mod Boxes
pub mod Selection
pub mod Users
pub mod Fields
pub mod Ports
pub mod Samples
mod Tests
mod Runs
use klokast_box.Prelude.{ℕ, String, Bool}

-- What a YAML text stands for. Mappings are in the order of the text, with texts as keys.
mutual
  pub data Value : Type 0 where
    text : String → Value
    integer : ℕ → Value
    boolean : Bool → Value
    empty : Value
    sequence : Sequence → Value
    mapping : Mapping → Value
    -- The integer below zero by one more.
    negative : ℕ → Value
    -- A fraction or a time, by its `str`, and whether it is a zero.
    other_scalar : String → Bool → Value

  pub data Mapping : Type 0 where
    no_entries : Mapping
    bind : String → Value → Mapping → Mapping

  pub data Sequence : Type 0 where
    no_items : Sequence
    item : Value → Sequence → Sequence

-- How a function ends early: `die`, by the part of its message that is fixed, or by the key that
-- may not be there; and an exception of Python, by its class.
pub data Refusal : Type 0 where
  died : String → Refusal
  forbidden : String → Refusal
  crashed : String → Refusal
