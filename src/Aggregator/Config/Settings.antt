-- ===== src/Aggregator/Config/Settings.antt =====
-- What may stand in a configuration file of the aggregator (aggregator/appconfig.c), its events, and
-- what it sets.
use compostela.Prelude.{ℕ, List, [], ◌∷◌, some, none, Bool, true, false, str_eq}
use compostela.Prelude.Text.{codes, strtoul_int}
use compostela.Yaml.{YamlEvent, scalar, sequence_start, sequence_end, mapping_start, mapping_end}
use compostela.Aggregator.Config.{AggregateContext, Globals}

-- The three words of `mode`.
pub data Mode : Type 0 where
  both separate merge : Mode

abbrev pub mode_word : Mode → List ℕ
mode_word both = codes "both"
mode_word separate = codes "separate"
mode_word merge = codes "merge"

abbrev pub separates : Mode → Bool
separates both = true
separates separate = true
separates merge = false

abbrev pub merges : Mode → Bool
merges both = true
merges separate = false
merges merge = true

-- What may stand in an entry of the list of patterns.
pub data Attribute : Type 0 where
  path display_name : List ℕ → Attribute
  rotate timestamp : Bool → Attribute
  mode : Mode → Attribute

abbrev pub flag_word : Bool → List ℕ
flag_word true = codes "true"
flag_word false = codes "false"

abbrev pub attribute_key : Attribute → List ℕ
attribute_key (Attribute.path v) = codes "path"
attribute_key (Attribute.display_name v) = codes "displayName"
attribute_key (Attribute.rotate b) = codes "rotate"
attribute_key (Attribute.timestamp b) = codes "timestamp"
attribute_key (Attribute.mode m) = codes "mode"

abbrev pub attribute_word : Attribute → List ℕ
attribute_word (Attribute.path v) = v
attribute_word (Attribute.display_name v) = v
attribute_word (Attribute.rotate b) = flag_word b
attribute_word (Attribute.timestamp b) = flag_word b
attribute_word (Attribute.mode m) = mode_word m

abbrev pub with_attribute : Attribute → AggregateContext → AggregateContext
with_attribute (Attribute.path v) c = record c { path = some v }
with_attribute (Attribute.display_name v) c = record c { display_name = some v }
with_attribute (Attribute.rotate b) c = record c { f_rotate = b }
with_attribute (Attribute.timestamp b) c = record c { f_timestamp = b }
with_attribute (Attribute.mode m) c = record c { f_separate = separates m; f_merge = merges m }

-- The later attribute of a name counts.
abbrev pub with_attributes : List Attribute → AggregateContext → AggregateContext
with_attributes [] c = c
with_attributes (a ∷ more) c = with_attributes more (with_attribute a c)

-- The context of an entry: what it does not name rotates, has no time put to its lines, and goes to
-- both files.
abbrev pub context_of : List Attribute → AggregateContext
context_of attributes = with_attributes attributes (record {
  path = none;
  display_name = none;
  f_rotate = true;
  f_timestamp = false;
  f_separate = true;
  f_merge = true;
})

abbrev pub entry_events : List Attribute → List YamlEvent → List YamlEvent
entry_events [] rest = mapping_end ∷ rest
entry_events (a ∷ more) rest =
    scalar (attribute_key a) ∷ scalar (attribute_word a) ∷ entry_events more rest

abbrev pub entries_events : List (List Attribute) → List YamlEvent → List YamlEvent
entries_events [] rest = sequence_end ∷ rest
entries_events (e ∷ entries) rest = mapping_start ∷ entry_events e (entries_events entries rest)

-- What may stand beside the list of patterns.
pub data Setting : Type 0 where
  logdir port hostname_lookups : List ℕ → Setting

abbrev pub setting_key : Setting → List ℕ
setting_key (Setting.logdir v) = codes "logdir"
setting_key (Setting.port v) = codes "port"
setting_key (Setting.hostname_lookups v) = codes "hostnameLookups"

abbrev pub setting_word : Setting → List ℕ
setting_word (Setting.logdir v) = v
setting_word (Setting.port v) = v
setting_word (Setting.hostname_lookups v) = v

abbrev pub with_setting : Setting → Globals → Globals
with_setting (Setting.logdir v) g = record g { server_logdir = some v }
with_setting (Setting.port v) g = record g { server_port = strtoul_int v }
with_setting (Setting.hostname_lookups v) g = record g {
  hostname_lookups = str_eq v (codes "true");
}

abbrev pub with_settings : List Setting → Globals → Globals
with_settings [] g = g
with_settings (s ∷ more) g = with_settings more (with_setting s g)

abbrev pub settings_events : List Setting → List YamlEvent → List YamlEvent
settings_events [] rest = rest
settings_events (s ∷ more) rest =
    scalar (setting_key s) ∷ scalar (setting_word s) ∷ settings_events more rest

-- A whole mapping: settings, the list of patterns, and settings again.
abbrev pub mapping_events :
    List Setting → List (List Attribute) → List Setting → List YamlEvent → List YamlEvent
mapping_events before entries after rest = settings_events before (
    scalar (codes "patterns")
    ∷ sequence_start
    ∷ entries_events entries (settings_events after (mapping_end ∷ rest)))
