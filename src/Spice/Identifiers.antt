-- ===== src/Spice/Identifiers.antt =====
-- spice-validation/identifiers.ts: the names of a plan and the names they have in a netlist.
pub mod Endpoints
use datasheet_to_tscircuit.Prelude.{
  ℕ, zero, suc, String, Bool, true, false, ◌||◌, ◌&&◌, Option, none, some, List, [], ◌∷◌, ◌==◌, leb,
  length, if◌then◌else◌, str_eq, ◌<>◌, codes, is_digit, is_lower, is_upper, all, decimal, index_of,
  take_text, drop_text, ◌+◌,
}
use datasheet_to_tscircuit.Spice.Types.{
  FixtureElement, resistor, capacitor, inductor, voltage_source, current_source, diode,
}

abbrev is_letter : ℕ → Bool
is_letter c = is_lower c || is_upper c

abbrev pub is_word : ℕ → Bool
is_word c = is_letter c || is_digit c || c == b'_'

abbrev is_case_letter : ℕ → Bool
is_case_letter c = is_lower c || is_digit c || c == b'_' || c == b'-'

-- `CASE_ID_PATTERN.test(text)` for the codes of a text
unfoldable pub is_case_id : List ℕ → Bool
is_case_id [] = false
is_case_id (c ∷ cs) = is_lower c && leb (length cs) 63 && all is_case_letter cs

-- `IDENTIFIER_PATTERN`
unfoldable pub is_identifier : List ℕ → Bool
is_identifier [] = false
is_identifier (c ∷ cs) = is_letter c && leb (length cs) 63 && all is_word cs

-- `SPICE_NODE_PATTERN`
unfoldable pub is_spice_node : List ℕ → Bool
is_spice_node [] = false
is_spice_node (c ∷ cs) = is_word c && leb (length cs) 63 && all is_word cs

pub data ParsedEndpoint : Type 0 where
  gnd : ParsedEndpoint
  dut net : (identifier : String) → ParsedEndpoint

endpoint_of : (scope identifier : String) → Option ParsedEndpoint
unfolding is_spice_node is_identifier
endpoint_of scope identifier =
    if str_eq scope "dut" && is_spice_node (codes identifier)
    then some (dut identifier)
    else if str_eq scope "net" && is_identifier (codes identifier)
    then some (net identifier)
    else none

-- The part behind the first separator holds no other.
parse_at : ℕ → String → Option ParsedEndpoint
unfolding index_of take_text drop_text endpoint_of
parse_at separator_index value =
    let identifier = drop_text (suc separator_index) value in
    if separator_index == 0 || str_eq identifier "" then none else elim (index_of b'.' identifier) [
      | some _ ↦ none
      | none ↦ endpoint_of (take_text separator_index value) identifier
    ]

unfoldable pub parse_endpoint_syntax : String → Option ParsedEndpoint
unfolding index_of parse_at
parse_endpoint_syntax value =
    if str_eq value "gnd"
    then some gnd
    else elim (index_of b'.' value) [ none ↦ none | some i ↦ parse_at i value ]

module _ {N : Type 0} where
  abbrev pub id_of : FixtureElement N → String
  id_of (resistor id _ _ _) = id
  id_of (capacitor id _ _ _) = id
  id_of (inductor id _ _ _) = id
  id_of (voltage_source id _ _ _ _) = id
  id_of (current_source id _ _ _ _) = id
  id_of (diode id _ _) = id

  abbrev prefix_of : FixtureElement N → String
  prefix_of (resistor _ _ _ _) = "R"
  prefix_of (capacitor _ _ _ _) = "C"
  prefix_of (inductor _ _ _ _) = "L"
  prefix_of (voltage_source _ _ _ _ _) = "V"
  prefix_of (current_source _ _ _ _ _) = "I"
  prefix_of (diode _ _ _) = "D"

  unfoldable pub get_fixture_element_name : FixtureElement N → String
  get_fixture_element_name element = prefix_of element <> "_" <> id_of element

  unfoldable pub get_fixture_endpoints : FixtureElement N → String × String
  get_fixture_endpoints (resistor _ positive negative _) = (positive, negative)
  get_fixture_endpoints (capacitor _ positive negative _) = (positive, negative)
  get_fixture_endpoints (inductor _ positive negative _) = (positive, negative)
  get_fixture_endpoints (voltage_source _ positive negative _ _) = (positive, negative)
  get_fixture_endpoints (current_source _ positive negative _ _) = (positive, negative)
  get_fixture_endpoints (diode _ anode cathode) = (anode, cathode)

unfoldable pub get_dut_node_name : ℕ → String
unfolding decimal
get_dut_node_name pin_index = "n_dut_" <> decimal (pin_index + 1)

unfoldable pub get_net_node_name : String → String
get_net_node_name identifier = "n_net_" <> identifier
