-- ===== src/Yaml.antt =====
-- The events that libyaml hands to the two configuration readers (aggregator/appconfig.c and
-- follower/appconfig.c). `yaml_parser_parse` takes the next event of a list; at the end of the list
-- it fails.
use compostela.Prelude.{ℕ, List, Option, none, some}

pub data YamlEvent : Type 0 where
  scalar : List ℕ → YamlEvent
  sequence_start sequence_end mapping_start mapping_end : YamlEvent
  stream_end other : YamlEvent

-- `event.data.scalar.value`: only a scalar has one.
unfoldable pub value_of : YamlEvent → Option (List ℕ)
value_of (scalar v) = some v
value_of sequence_start = none
value_of sequence_end = none
value_of mapping_start = none
value_of mapping_end = none
value_of stream_end = none
value_of other = none
