-- ===== src/Aggregator/Config.antt =====
-- aggregator/appconfig.c: the configuration, read from the events of the YAML parser. `none` is a
-- read of the value of an event that has none, or a failed assertion.
pub mod Settings
pub mod Loading
use compostela.Prelude.{
  ℕ, zero, suc, List, [], ◌∷◌, ◌++◌, Option, none, some, ◌>>=◌, ◌>>◌, guard, length, Bool, true,
  false, str_eq, if◌then◌else◌,
}
use compostela.Prelude.Text.{codes, str_case_eq, strtoul_int}
use compostela.Yaml.{
  YamlEvent, scalar, sequence_start, sequence_end, mapping_start, mapping_end, stream_end, other,
  value_of,
}
use compostela.AzList

-- `sc_aggregate_context`. A pointer that was never set is `none`.
pub record AggregateContext : Type 0 where
  pub path : Option (List ℕ)
  pub display_name : Option (List ℕ)
  pub f_rotate : Bool
  pub f_timestamp : Bool
  pub f_separate : Bool
  pub f_merge : Bool

-- The `g_config_*` variables.
pub record Globals : Type 0 where
  pub server_logdir : Option (List ℕ)
  pub server_addr : Option (List ℕ)
  pub server_port : ℕ
  pub hostname_lookups : Bool
  pub contexts : List AggregateContext

abbrev pub initial : Globals
initial = record {
  server_logdir = none;
  server_addr = none;
  server_port = 0;
  hostname_lookups = false;
  contexts = [];
}

-- The state of a context before its keys are read.
abbrev pub fresh_context : AggregateContext
fresh_context = record {
  path = none;
  display_name = none;
  f_rotate = true;
  f_timestamp = false;
  f_separate = true;
  f_merge = true;
}

-- `mode`: a word that is none of the three changes nothing.
pub set_mode : List ℕ → AggregateContext → AggregateContext
set_mode v cxt =
    if str_case_eq v (codes "both")
    then record cxt { f_separate = true; f_merge = true }
    else if str_case_eq v (codes "separate")
    then record cxt { f_separate = true; f_merge = false }
    else if str_case_eq v (codes "merge")
    then record cxt { f_separate = false; f_merge = true }
    else cxt

-- One key with its value.
pub set_key : List ℕ → YamlEvent → AggregateContext → Option AggregateContext
set_key key event cxt =
    if str_eq key (codes "path")
    then (value_of event >>= λ v. some (record cxt { path = some v }))
    else if str_eq key (codes "displayName")
    then (value_of event >>= λ v. some (record cxt { display_name = some v }))
    else if str_eq key (codes "rotate")
    then (value_of event >>= λ v. some (record cxt { f_rotate = str_case_eq v (codes "true") }))
    else if str_eq key (codes "timestamp")
    then (value_of event >>= λ v. some (record cxt { f_timestamp = str_case_eq v (codes "true") }))
    else if str_eq key (codes "mode")
    then (value_of event >>= λ v. some (set_mode v cxt))
    else some cxt

-- The context, and the events that are left.
unfoldable pub pick_aggregate_context :
    List YamlEvent → AggregateContext → Option (AggregateContext × List YamlEvent)
unfolding set_key set_mode
pick_aggregate_context [] ret = some (ret, [])
pick_aggregate_context (scalar key ∷ []) ret = some (ret, [])
pick_aggregate_context (scalar key ∷ v ∷ events) ret =
    set_key key v ret >>= pick_aggregate_context events
pick_aggregate_context (mapping_end ∷ events) ret = some (ret, events)
pick_aggregate_context (sequence_start ∷ events) ret = pick_aggregate_context events ret
pick_aggregate_context (sequence_end ∷ events) ret = pick_aggregate_context events ret
pick_aggregate_context (mapping_start ∷ events) ret = pick_aggregate_context events ret
pick_aggregate_context (stream_end ∷ events) ret = pick_aggregate_context events ret
pick_aggregate_context (other ∷ events) ret = pick_aggregate_context events ret

-- The loop over the entries, on fuel: each round takes an event at least. The list is built from
-- its end.
unfoldable pub pick_patterns :
    ℕ → List YamlEvent → List AggregateContext → Option (List AggregateContext × List YamlEvent)
pick_patterns zero events li = none
pick_patterns (suc fuel) [] li = some (li, [])
pick_patterns (suc fuel) (sequence_end ∷ events) li = some (li, events)
pick_patterns (suc fuel) (mapping_start ∷ events) li =
    elim (pick_aggregate_context events fresh_context) [
      | none ↦ none
      | some (entry, rest) ↦ pick_patterns fuel rest (entry ∷ li)
    ]
pick_patterns (suc fuel) (scalar v ∷ events) li = pick_patterns fuel events li
pick_patterns (suc fuel) (sequence_start ∷ events) li = pick_patterns fuel events li
pick_patterns (suc fuel) (mapping_end ∷ events) li = pick_patterns fuel events li
pick_patterns (suc fuel) (stream_end ∷ events) li = pick_patterns fuel events li
pick_patterns (suc fuel) (other ∷ events) li = pick_patterns fuel events li

-- The value that follows a key; the loop ends where there is none.
pub set_global :
    (List ℕ → Globals → Globals)
    → List YamlEvent
    → Globals
    → (Globals → List YamlEvent → Option (Globals × List YamlEvent))
    → Option (Globals × List YamlEvent)
set_global set [] g next = some (g, [])
set_global set (event ∷ events) g next = value_of event >>= λ v. next (set v g) events

-- A second list of patterns is refused by an assertion.
pub is_empty : List AggregateContext → Bool
is_empty [] = true
is_empty (c ∷ cs) = false

pub set_patterns :
    List YamlEvent
    → Globals
    → (Globals → List YamlEvent → Option (Globals × List YamlEvent))
    → Option (Globals × List YamlEvent)
set_patterns events g next = do
  guard (is_empty g.contexts)
  picked ← pick_patterns (suc (length events)) events []
  next (record g { contexts = AzList.reverse picked.0 }) picked.1

pub global_key :
    List ℕ
    → List YamlEvent
    → Globals
    → (Globals → List YamlEvent → Option (Globals × List YamlEvent))
    → Option (Globals × List YamlEvent)
global_key key events g next =
    if str_eq key (codes "logdir")
    then set_global (λ v g'. record g' { server_logdir = some v }) events g next
    else if str_eq key (codes "port")
    then set_global (λ v g'. record g' { server_port = strtoul_int v }) events g next
    else if str_eq key (codes "hostnameLookups")
    then set_global (λ v g'. record g' { hostname_lookups = str_eq v (codes "true") }) events g next
    else if str_eq key (codes "patterns")
    then set_patterns events g next
    else next g events

-- It stops at the first event that is no scalar, which is consumed.
unfoldable pub pick_global : ℕ → Globals → List YamlEvent → Option (Globals × List YamlEvent)
unfolding global_key set_global set_patterns is_empty pick_patterns AzList.reverse
pick_global zero g events = none
pick_global (suc fuel) g [] = some (g, [])
pick_global (suc fuel) g (scalar key ∷ events) = global_key key events g (pick_global fuel)
pick_global (suc fuel) g (sequence_start ∷ events) = some (g, events)
pick_global (suc fuel) g (sequence_end ∷ events) = some (g, events)
pick_global (suc fuel) g (mapping_start ∷ events) = some (g, events)
pick_global (suc fuel) g (mapping_end ∷ events) = some (g, events)
pick_global (suc fuel) g (stream_end ∷ events) = some (g, events)
pick_global (suc fuel) g (other ∷ events) = some (g, events)

-- The loop of `load_config_file`, up to the end of the stream or an error of the parser.
unfoldable pub load_events : ℕ → Globals → List YamlEvent → Option Globals
load_events zero g events = none
load_events (suc fuel) g [] = some g
load_events (suc fuel) g (stream_end ∷ events) = some g
load_events (suc fuel) g (mapping_start ∷ events) =
    elim (pick_global (suc (length events)) g events) [
      | none ↦ none
      | some (g', rest) ↦ load_events fuel g' rest
    ]
load_events (suc fuel) g (scalar v ∷ events) = load_events fuel g events
load_events (suc fuel) g (sequence_start ∷ events) = load_events fuel g events
load_events (suc fuel) g (sequence_end ∷ events) = load_events fuel g events
load_events (suc fuel) g (mapping_end ∷ events) = load_events fuel g events
load_events (suc fuel) g (other ∷ events) = load_events fuel g events

-- The file is `none` where it cannot be opened: -1, and nothing is set.
unfoldable pub load_config_file : Option (List YamlEvent) → Globals → Option (Globals × Bool)
load_config_file none g = some (g, false)
load_config_file (some events) g =
    load_events (suc (length events)) g events >>= λ g'. some (g', true)
