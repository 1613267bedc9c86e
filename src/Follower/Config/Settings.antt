-- ===== src/Follower/Config/Settings.antt =====
-- What may stand in a configuration file of the follower (follower/appconfig.c), its events, and what
-- it sets.
use compostela.Prelude.{ℕ, List, [], ◌∷◌, some, Bool, true, false}
use compostela.Prelude.Text.{codes, strtoul_int}
use compostela.Yaml.{YamlEvent, scalar, sequence_start, sequence_end, mapping_start, mapping_end}
use compostela.Follower.Config.{Pattern, Globals, fresh_entry}

-- What may stand in an entry of the list of patterns.
pub data Attribute : Type 0 where
  path display_name : List ℕ → Attribute
  rotate timestamp : Bool → Attribute

abbrev pub flag_word : Bool → List ℕ
flag_word true = codes "true"
flag_word false = codes "false"

abbrev pub attribute_events : Attribute → List YamlEvent → List YamlEvent
attribute_events (Attribute.path v) rest = scalar (codes "path") ∷ scalar v ∷ rest
attribute_events (Attribute.display_name v) rest = scalar (codes "displayName") ∷ scalar v ∷ rest
attribute_events (Attribute.rotate b) rest = scalar (codes "rotate") ∷ scalar (flag_word b) ∷ rest
attribute_events (Attribute.timestamp b) rest =
    scalar (codes "timestamp") ∷ scalar (flag_word b) ∷ rest

abbrev pub with_attribute : Attribute → Pattern → Pattern
with_attribute (Attribute.path v) e = record e { path = some v }
with_attribute (Attribute.display_name v) e = record e { display_name = some v }
with_attribute (Attribute.rotate b) e = record e { rotate = b }
with_attribute (Attribute.timestamp b) e = record e { append_timestamp = b }

-- The later attribute of a name counts.
abbrev pub with_attributes : List Attribute → Pattern → Pattern
with_attributes [] e = e
with_attributes (a ∷ more) e = with_attributes more (with_attribute a e)

abbrev pub entry_events : List Attribute → List YamlEvent → List YamlEvent
entry_events [] rest = mapping_end ∷ rest
entry_events (a ∷ more) rest = attribute_events a (entry_events more rest)

abbrev pub entries_events : List (List Attribute) → List YamlEvent → List YamlEvent
entries_events [] rest = sequence_end ∷ rest
entries_events (e ∷ entries) rest = mapping_start ∷ entry_events e (entries_events entries rest)

-- The patterns, the last entry in front.
abbrev pub patterns_of : List (List Attribute) → List Pattern → List Pattern
patterns_of [] li = li
patterns_of (e ∷ entries) li = patterns_of entries (with_attributes e fresh_entry ∷ li)

-- What may stand in the file. The waiting time has two names.
pub data Setting : Type 0 where
  server port control_path waiting_seconds waiting : List ℕ → Setting
  patterns : List (List Attribute) → Setting

abbrev pub setting_events : Setting → List YamlEvent → List YamlEvent
setting_events (Setting.server v) rest = scalar (codes "server") ∷ scalar v ∷ rest
setting_events (Setting.port v) rest = scalar (codes "port") ∷ scalar v ∷ rest
setting_events (Setting.control_path v) rest = scalar (codes "controlPath") ∷ scalar v ∷ rest
setting_events (Setting.waiting_seconds v) rest = scalar (codes "waitingSeconds") ∷ scalar v ∷ rest
setting_events (Setting.waiting v) rest = scalar (codes "waiting") ∷ scalar v ∷ rest
setting_events (Setting.patterns entries) rest =
    scalar (codes "patterns") ∷ sequence_start ∷ entries_events entries rest

abbrev pub with_setting : Setting → Globals → Globals
with_setting (Setting.server v) g = record g { server_address = some v }
with_setting (Setting.port v) g = record g { server_port = strtoul_int v }
with_setting (Setting.control_path v) g = record g { control_path = some v }
with_setting (Setting.waiting_seconds v) g = record g { waiting_seconds = strtoul_int v }
with_setting (Setting.waiting v) g = record g { waiting_seconds = strtoul_int v }
with_setting (Setting.patterns entries) g = record g { patterns = patterns_of entries [] }

abbrev pub with_settings : List Setting → Globals → Globals
with_settings [] g = g
with_settings (s ∷ more) g = with_settings more (with_setting s g)

abbrev pub settings_events : List Setting → List YamlEvent → List YamlEvent
settings_events [] rest = mapping_end ∷ rest
settings_events (s ∷ more) rest = setting_events s (settings_events more rest)
