-- ===== src/Spice/Compiler.antt =====
-- spice-validation/compiler.ts: the netlist of a validation case.
-- The comparison of `localeCompare` is a parameter; `sort` with no comparison is by code points.
use Prim.Native.String
use Prim.Native.Nat.{Ordering}
use datasheet_to_tscircuit.Prelude.{
  ℕ, String, Bool, true, false, not, ◌||◌, ◌&&◌, Option, none, some, List, [], ◌∷◌, ◌++◌, map,
  if◌then◌else◌, ◌==◌, str_eq, ◌<>◌, quote, codes, is_space, is_upper, ◌+◌, join_text, add, Dict,
  lookup, put_all, sort_by,
}
use datasheet_to_tscircuit.Spice.Types.{
  PulseSpecification, FixtureElement, resistor, capacitor, inductor, voltage_source, current_source,
  diode, ValidationAnalysis, operating_point, dc_sweep, transient, Measurement, voltage, current,
  ValidationObservation, ValidationCase, ModelPin,
}
use datasheet_to_tscircuit.Spice.Numbers.{Numbers}
use datasheet_to_tscircuit.Spice.Identifiers.{
  is_word, id_of, get_fixture_endpoints, get_fixture_element_name,
}
use datasheet_to_tscircuit.Spice.Observations.{fixture_by_id}
use datasheet_to_tscircuit.Spice.Compiled.{
  Compiled, compiled, compile_error, ◌>>=◌, compile_all, required,
}
use datasheet_to_tscircuit.Spice.Resolver.{NodeResolver, get_node_resolver, resolve_node}

-- An ASCII letter as a small one.
abbrev lower : ℕ → ℕ
lower c = if is_upper c then c + 32 else c

-- `.measure` in any case, up to a word boundary.
matches_word : List ℕ → List ℕ → Bool
matches_word [] [] = true
matches_word [] (c ∷ cs) = not (is_word c)
matches_word (w ∷ ws) [] = false
matches_word (w ∷ ws) (c ∷ cs) = lower c == w && matches_word ws cs

after_space : List ℕ → Bool
unfolding matches_word is_space
after_space [] = false
after_space (c ∷ cs) = matches_word (codes ".measure") (c ∷ cs) || is_space c && after_space cs

is_line_end : ℕ → Bool
is_line_end c = c == 10 || c == 13 || c == 0x2028 || c == 0x2029

after_line_end : List ℕ → Bool
unfolding after_space is_line_end
after_line_end [] = false
after_line_end (c ∷ cs) = is_line_end c && after_space cs || after_line_end cs

-- `/^\s*\.measure\b/im.test(source)`
unfoldable pub has_measure : String → Bool
unfolding after_space after_line_end
has_measure source = after_space (codes source) || after_line_end (codes source)

abbrev text_le : String → String → Bool
text_le s t = elim (String.compare s t) [ Ordering.gt ↦ false | _ ↦ true ]

-- `[...new Set(texts)]`
unfoldable pub distinct_texts : List String → List String → List String
unfolding add
distinct_texts seen [] = seen
distinct_texts seen (text ∷ texts) = distinct_texts (add text seen) texts

pub record CompiledObservation (N : Type 0) : Type 0 where
  pub observation : ValidationObservation N
  pub positive_node : Option String
  pub negative_node : Option String
  pub element_name : Option String
  pub saved_vectors : List String

pub record CompiledValidationCase (N : Type 0) : Type 0 where
  pub case_id : String
  pub source : String
  pub observations : List (CompiledObservation N)
  pub element_names : Dict String

-- The saved vectors of a voltage between two nodes.
unfoldable pub voltage_vectors : (positive_node negative_node : String) → List String
unfolding distinct_texts
voltage_vectors positive_node negative_node = distinct_texts [] (
    (if str_eq positive_node "0" then [] else ("v(" <> positive_node <> ")") ∷ [])
    ++ (if str_eq negative_node "0" then [] else ("v(" <> negative_node <> ")") ∷ []))

abbrev is_empty : List String → Bool
is_empty [] = true
is_empty (_ ∷ _) = false

module _ {N : Type 0} where
  unfoldable pub get_current_vector : FixtureElement N → (element_name : String) → String
  get_current_vector (voltage_source _ _ _ _ _) name = "i(" <> name <> ")"
  get_current_vector (inductor _ _ _ _) name = "i(" <> name <> ")"
  get_current_vector (resistor _ _ _ _) name = "@" <> name <> "[i]"
  get_current_vector (capacitor _ _ _ _) name = "@" <> name <> "[i]"
  get_current_vector (current_source _ _ _ _ _) name = "@" <> name <> "[current]"
  get_current_vector (diode _ _ _) name = "@" <> name <> "[id]"

  -- `Object.fromEntries` of the names
  unfoldable pub element_names_of : List (FixtureElement N) → Dict String
  unfolding put_all get_fixture_element_name
  element_names_of fixtures =
      put_all (map (λ fixture. (id_of fixture, get_fixture_element_name fixture)) fixtures) []

  observe_element :
      ValidationObservation N
      → (element_id : String) → Option (FixtureElement N)
      → Option String
      → Compiled (CompiledObservation N)
  unfolding get_current_vector
  observe_element o element_id (some element) (some name) = compiled (record {
    observation = o;
    positive_node = none;
    negative_node = none;
    element_name = some name;
    saved_vectors = get_current_vector element name ∷ [];
  })
  observe_element o element_id _ _ =
      compile_error
        ("Observation " <> quote o.id <> " references unknown element " <> quote element_id)

  compile_measurement :
      NodeResolver
      → List (FixtureElement N)
      → ValidationObservation N
      → Measurement
      → Compiled (CompiledObservation N)
  unfolding resolve_node voltage_vectors observe_element fixture_by_id element_names_of lookup
  compile_measurement r fixtures o (voltage positive negative) =
      resolve_node r positive >>= λ positive_node. resolve_node r negative >>= λ negative_node.
      compiled (record {
        observation = o;
        positive_node = some positive_node;
        negative_node = some negative_node;
        element_name = none;
        saved_vectors = voltage_vectors positive_node negative_node;
      })
  compile_measurement r fixtures o (current element_id _) =
      observe_element o element_id (lookup element_id (fixture_by_id fixtures))
        (lookup element_id (element_names_of fixtures))

  unfoldable pub compile_observation :
      NodeResolver
      → List (FixtureElement N)
      → ValidationObservation N
      → Compiled (CompiledObservation N)
  unfolding compile_measurement
  compile_observation r fixtures o = compile_measurement r fixtures o o.measurement

  abbrev is_diode : FixtureElement N → Bool
  is_diode (diode _ _ _) = true
  is_diode _ = false

  abbrev any_diode : List (FixtureElement N) → Bool
  any_diode [] = false
  any_diode (fixture ∷ fixtures) = is_diode fixture || any_diode fixtures

  abbrev all_vectors : List (CompiledObservation N) → List String
  all_vectors [] = []
  all_vectors (o ∷ os) = o.saved_vectors ++ all_vectors os

module _ (N : Numbers) (locale_le : String → String → Bool) where
  open N use {Number, is_finite, is_minus_zero, number_text}

  unfoldable pub format_spice_number : Number → Compiled String
  format_spice_number value =
      if is_finite value
      then compiled (if is_minus_zero value then "0" else number_text value)
      else compile_error "Cannot compile a non-finite number"

  compile_pulse : PulseSpecification Number → Compiled String
  unfolding format_spice_number
  compile_pulse pulse =
      compile_all format_spice_number (
        pulse.low ∷ pulse.high ∷ pulse.delay ∷ pulse.rise ∷ pulse.fall ∷ pulse.width ∷ pulse.period
        ∷ [])
      >>= λ numbers. compiled ("PULSE(" <> join_text " " numbers <> ")")

  -- A source with its pulse, if it has one.
  compile_source : Number → Option (PulseSpecification Number) → Compiled String
  unfolding compile_pulse format_spice_number
  compile_source value none = format_spice_number value >>= λ text. compiled ("DC " <> text)
  compile_source value (some pulse) = format_spice_number value >>= λ text.
      compile_pulse pulse >>= λ shape. compiled ("DC " <> text <> " " <> shape)

  compile_terminals : NodeResolver → (first second : String) → Compiled String
  unfolding resolve_node
  compile_terminals r first second = resolve_node r first >>= λ first_node.
      resolve_node r second >>= λ second_node. compiled (first_node <> " " <> second_node)

  -- What stands behind the terminals.
  compile_value : FixtureElement Number → Compiled String
  unfolding format_spice_number compile_source
  compile_value (resistor _ _ _ value) = format_spice_number value
  compile_value (capacitor _ _ _ value) = format_spice_number value
  compile_value (inductor _ _ _ value) = format_spice_number value
  compile_value (voltage_source _ _ _ value pulse) = compile_source value pulse
  compile_value (current_source _ _ _ value pulse) = compile_source value pulse
  compile_value (diode _ _ _) = compiled "D_VALIDATION"

  unfoldable pub compile_fixture : NodeResolver → FixtureElement Number → Compiled String
  unfolding get_fixture_element_name get_fixture_endpoints compile_terminals compile_value
  compile_fixture r fixture =
      let (first, second) = get_fixture_endpoints fixture in
      compile_terminals r first second >>= λ terminals. compile_value fixture >>= λ value.
      compiled (get_fixture_element_name fixture <> " " <> terminals <> " " <> value)

  abbrev source_name : Option (FixtureElement Number) → Option String → Option String
  source_name (some (voltage_source _ _ _ _ _)) name = name
  source_name (some (current_source _ _ _ _ _)) name = name
  source_name _ name = none

  unfoldable pub compile_analysis :
      ValidationAnalysis Number → List (FixtureElement Number) → Compiled String
  unfolding format_spice_number fixture_by_id element_names_of lookup quote
  compile_analysis operating_point fixtures = compiled ".op"
  compile_analysis (transient step stop none) fixtures =
      compile_all format_spice_number (step ∷ stop ∷ []) >>= λ numbers.
      compiled (".tran " <> join_text " " numbers)
  compile_analysis (transient step stop (some start)) fixtures =
      compile_all format_spice_number (step ∷ stop ∷ start ∷ []) >>= λ numbers.
      compiled (".tran " <> join_text " " numbers)
  compile_analysis (dc_sweep source_id start stop step) fixtures =
      required ("DC sweep source " <> quote source_id <> " is invalid") (
        source_name (lookup source_id (fixture_by_id fixtures))
          (lookup source_id (element_names_of fixtures)))
      >>= λ name. compile_all format_spice_number (start ∷ stop ∷ step ∷ []) >>= λ numbers.
          compiled (".dc " <> name <> " " <> join_text " " numbers)

  netlist_lines :
      ValidationCase Number
      → (entry_name : String) → (dut_nodes : List String) → List (FixtureElement Number)
      → (fixture_lines saved_vectors : List String) → (analysis : String) → List String
  netlist_lines c entry_name dut_nodes fixtures fixture_lines saved_vectors analysis =
      ("* spice-validation version 1 case " <> c.id)
        ∷ ".include ../model.lib"
        ∷ ("X_DUT " <> join_text " " dut_nodes <> " " <> entry_name)
        ∷ (if any_diode fixtures then ".model D_VALIDATION D" ∷ [] else [])
      ++ fixture_lines
      ++ (".save " <> join_text " " saved_vectors) ∷ analysis ∷ ".end" ∷ "" ∷ []

  -- The check of the compiled text.
  checked_case :
      ValidationCase Number
      → List (CompiledObservation Number)
      → Dict String
      → (source : String) → Compiled (CompiledValidationCase Number)
  unfolding has_measure
  checked_case c observations element_names source =
      if has_measure source
      then compile_error "Compiler invariant failed: .measure is forbidden"
      else compiled (record {
        case_id = c.id;
        source = source;
        observations = observations;
        element_names = element_names;
      })

  unfoldable pub compile_validation_case :
      ValidationCase Number
      → List ModelPin
      → (entry_name : String) → Compiled (CompiledValidationCase Number)
  unfolding get_node_resolver sort_by compile_observation distinct_texts quote compile_fixture
      compile_analysis netlist_lines checked_case element_names_of resolve_node
  compile_validation_case c pins entry_name = get_node_resolver pins c >>= λ r.
      let fixtures = sort_by (λ a b. locale_le (id_of a) (id_of b)) c.fixtures in
      compile_all (compile_observation r fixtures) c.observations >>= λ observations.
      let saved_vectors = sort_by text_le (distinct_texts [] (all_vectors observations)) in
      if is_empty saved_vectors
      then compile_error ("Case " <> quote c.id <> " has no save vectors")
      else compile_all (λ pin. resolve_node r ("dut." <> pin.spice_node)) pins >>= λ dut_nodes.
          compile_all (compile_fixture r) fixtures >>= λ fixture_lines.
          compile_analysis c.analysis fixtures >>= λ analysis.
          checked_case c observations (element_names_of fixtures) (
            join_text "\n"
              (netlist_lines c entry_name dut_nodes fixtures fixture_lines saved_vectors analysis))
