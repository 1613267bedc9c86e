-- ===== src/Follower/Config.antt =====
-- follower/appconfig.c: the configuration of the follower, read from the events of the YAML parser.
-- `none` is a read of the value of an event that has none, or of an event that was never filled in.
pub mod Settings
pub mod Loading
mod Tests
use compostela.Prelude.{
  ℕ, zero, suc, List, [], ◌∷◌, Option, none, some, ◌>>=◌, length, Bool, true, false, ◌||◌, str_eq,
  if◌then◌else◌,
}
use compostela.Prelude.Text.{codes, str_case_eq, strtoul_int}
use compostela.Yaml.{
  YamlEvent, scalar, sequence_start, sequence_end, mapping_start, mapping_end, stream_end, other,
  value_of,
}
use compostela.AzList

-- A pattern while it is read: the path is not there yet.
pub record Pattern : Type 0 where
  pub path : Option (List ℕ)
  pub display_name : Option (List ℕ)
  pub rotate : Bool
  pub append_timestamp : Bool

-- The `g_config_*` variables.
pub record Globals : Type 0 where
  pub server_address : Option (List ℕ)
  pub server_port : ℕ
  pub waiting_seconds : ℕ
  pub control_path : Option (List ℕ)
  pub patterns : List Pattern

abbrev pub initial : Globals
initial = record {
  server_address = none;
  server_port = 0;
  waiting_seconds = 1;
  control_path = none;
  patterns = [];
}

-- The state of an entry before its keys are read: `memset` to zero.
abbrev pub fresh_entry : Pattern
fresh_entry = record { path = none; display_name = none; rotate = false; append_timestamp = false }

-- One key with its value.
pub set_key : List ℕ → YamlEvent → Pattern → Option Pattern
set_key key event ret =
    if str_eq key (codes "path")
    then (value_of event >>= λ v. some (record ret { path = some v }))
    else if str_eq key (codes "displayName")
    then (value_of event >>= λ v. some (record ret { display_name = some v }))
    else if str_eq key (codes "rotate")
    then (value_of event >>= λ v. some (record ret { rotate = str_case_eq v (codes "true") }))
    else if str_eq key (codes "timestamp")
    then (value_of event >>= λ v.
        some (record ret { append_timestamp = str_case_eq v (codes "true") }))
    else some ret

-- `_pick_pattern_entry`: the entry, and the events that are left.
unfoldable pub pick_pattern_entry : List YamlEvent → Pattern → Option (Pattern × List YamlEvent)
unfolding set_key
pick_pattern_entry [] ret = some (ret, [])
pick_pattern_entry (scalar key ∷ []) ret = some (ret, [])
pick_pattern_entry (scalar key ∷ v ∷ events) ret = set_key key v ret >>= pick_pattern_entry events
pick_pattern_entry (mapping_end ∷ events) ret = some (ret, events)
pick_pattern_entry (sequence_start ∷ events) ret = pick_pattern_entry events ret
pick_pattern_entry (sequence_end ∷ events) ret = pick_pattern_entry events ret
pick_pattern_entry (mapping_start ∷ events) ret = pick_pattern_entry events ret
pick_pattern_entry (stream_end ∷ events) ret = pick_pattern_entry events ret
pick_pattern_entry (other ∷ events) ret = pick_pattern_entry events ret

-- `_pick_patterns`: the loop over the entries, on fuel, as each round takes an event at least. The
-- list is built from its end.
unfoldable pub pick_patterns :
    ℕ → List YamlEvent → List Pattern → Option (List Pattern × List YamlEvent)
pick_patterns zero events li = none
pick_patterns (suc fuel) [] li = some (li, [])
pick_patterns (suc fuel) (sequence_end ∷ events) li = some (li, events)
pick_patterns (suc fuel) (mapping_start ∷ events) li =
    elim (pick_pattern_entry events fresh_entry) [
      | none ↦ none
      | some (entry, rest) ↦ pick_patterns fuel rest (AzList.add li entry)
    ]
pick_patterns (suc fuel) (scalar v ∷ events) li = pick_patterns fuel events li
pick_patterns (suc fuel) (sequence_start ∷ events) li = pick_patterns fuel events li
pick_patterns (suc fuel) (mapping_end ∷ events) li = pick_patterns fuel events li
pick_patterns (suc fuel) (stream_end ∷ events) li = pick_patterns fuel events li
pick_patterns (suc fuel) (other ∷ events) li = pick_patterns fuel events li

-- What a round goes on with.
abbrev pub Next : Type 0
Next = Globals → List YamlEvent → Option (Globals × List YamlEvent)

-- The value that follows a key; the loop ends where there is none.
pub set_global :
    (List ℕ → Globals → Globals)
    → List YamlEvent
    → Globals
    → Next
    → Option (Globals × List YamlEvent)
set_global set [] g next = some (g, [])
set_global set (event ∷ events) g next = value_of event >>= λ v. next (set v g) events

-- The list stays as `_pick_patterns` built it. An earlier list is forgotten.
pub set_patterns : List YamlEvent → Globals → Next → Option (Globals × List YamlEvent)
set_patterns events g next = pick_patterns (suc (length events)) events [] >>= λ picked.
    next (record g { patterns = picked.0 }) picked.1

pub global_key : List ℕ → List YamlEvent → Globals → Next → Option (Globals × List YamlEvent)
global_key key events g next =
    if str_eq key (codes "server")
    then set_global (λ v g'. record g' { server_address = some v }) events g next
    else if str_eq key (codes "port")
    then set_global (λ v g'. record g' { server_port = strtoul_int v }) events g next
    else if str_eq key (codes "controlPath")
    then set_global (λ v g'. record g' { control_path = some v }) events g next
    else if str_eq key (codes "waitingSeconds") || str_eq key (codes "waiting")
    then set_global (λ v g'. record g' { waiting_seconds = strtoul_int v }) events g next
    else if str_eq key (codes "patterns")
    then set_patterns events g next
    else next g events

-- `_pick_global` stops at the first event that is no scalar, which is consumed. The switch at the
-- end of a round only logs.
unfoldable pub pick_global : ℕ → Globals → List YamlEvent → Option (Globals × List YamlEvent)
unfolding global_key set_global set_patterns
pick_global zero g events = none
pick_global (suc fuel) g [] = some (g, [])
pick_global (suc fuel) g (scalar key ∷ events) = global_key key events g (pick_global fuel)
pick_global (suc fuel) g (sequence_start ∷ events) = some (g, events)
pick_global (suc fuel) g (sequence_end ∷ events) = some (g, events)
pick_global (suc fuel) g (mapping_start ∷ events) = some (g, events)
pick_global (suc fuel) g (mapping_end ∷ events) = some (g, events)
pick_global (suc fuel) g (stream_end ∷ events) = some (g, events)
pick_global (suc fuel) g (other ∷ events) = some (g, events)

-- The loop of `load_config_file`, up to the end of the stream or an error of the parser.
unfoldable pub load_events : ℕ → Globals → List YamlEvent → Option Globals
load_events zero g events = none
load_events (suc fuel) g [] = some g
load_events (suc fuel) g (stream_end ∷ events) = some g
load_events (suc fuel) g (mapping_start ∷ events) =
    elim (pick_global (suc (length events)) g events) [
      | none ↦ none
      | some (g', rest) ↦ load_events fuel g' rest
    ]
load_events (suc fuel) g (scalar v ∷ events) = load_events fuel g events
load_events (suc fuel) g (sequence_start ∷ events) = load_events fuel g events
load_events (suc fuel) g (sequence_end ∷ events) = load_events fuel g events
load_events (suc fuel) g (mapping_end ∷ events) = load_events fuel g events
load_events (suc fuel) g (other ∷ events) = load_events fuel g events

-- The file is `none` where it cannot be opened: -1, and nothing is set.
unfoldable pub load_config_file : Option (List YamlEvent) → Globals → Option (Globals × Bool)
load_config_file none g = some (g, false)
load_config_file (some events) g =
    load_events (suc (length events)) g events >>= λ g'. some (g', true)

-- `clean_config`: the port, the waiting time and the freed control path stay.
unfoldable pub clean_config : Globals → Globals
clean_config g = record g { server_address = none; patterns = [] }
