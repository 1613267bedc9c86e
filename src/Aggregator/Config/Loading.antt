-- ===== src/Aggregator/Config/Loading.antt =====
-- What aggregator/appconfig.c makes of a configuration file.
use mathlib.Core.List
use compostela.Prelude.{
  map, ℕ, zero, suc, ◌+◌, ◌<◌, ◌≤◌, ◌≡◌, refl, sym, ap, ◌∙◌, List, [], ◌∷◌, ◌++◌, append_assoc,
  append-nil, Option, some, ◌>>=◌, true, false, arith, length, str_eq,
}
use compostela.Prelude.Text.{str_case_eq, codes}
use compostela.AzList
use compostela.AzList.Laws
use compostela.Yaml.{
  YamlEvent, scalar, sequence_start, mapping_start, mapping_end, stream_end, other, value_of,
}
use compostela.Aggregator.Config.{
  AggregateContext, fresh_context, set_key, set_mode, pick_aggregate_context, pick_patterns,
  Globals, set_patterns, is_empty, global_key, set_global, pick_global, load_events,
  load_config_file,
}
use compostela.Aggregator.Config.Settings.{
  both, separate, merge, Attribute, attribute_key, attribute_word, with_attribute, with_attributes,
  context_of, entry_events, entries_events, Setting, setting_key, setting_word, with_setting,
  with_settings, settings_events, mapping_events,
}

pick-attribute :
    (a : Attribute) (rest : List YamlEvent) (c : AggregateContext)
    → pick_aggregate_context (scalar (attribute_key a) ∷ scalar (attribute_word a) ∷ rest) c
      ≡ pick_aggregate_context rest (with_attribute a c)
unfolding pick_aggregate_context set_key set_mode str_eq str_case_eq value_of
pick-attribute (Attribute.path v) rest c = refl
pick-attribute (Attribute.display_name v) rest c = refl
pick-attribute (Attribute.rotate true) rest c = refl
pick-attribute (Attribute.rotate false) rest c = refl
pick-attribute (Attribute.timestamp true) rest c = refl
pick-attribute (Attribute.timestamp false) rest c = refl
pick-attribute (Attribute.mode both) rest c = refl
pick-attribute (Attribute.mode separate) rest c = refl
pick-attribute (Attribute.mode merge) rest c = refl

pick-attributes :
    (attributes : List Attribute) (rest : List YamlEvent) (c : AggregateContext)
    → pick_aggregate_context (entry_events attributes rest) c
      ≡ some (with_attributes attributes c, rest)
unfolding pick_aggregate_context
pick-attributes [] rest c = refl
pick-attributes (a ∷ more) rest c =
    pick-attribute a (entry_events more rest) c ∙ pick-attributes more rest (with_attribute a c)

pick-entry :
    (attributes : List Attribute) (rest : List YamlEvent)
    → pick_aggregate_context (entry_events attributes rest) fresh_context
      ≡ some (context_of attributes, rest)
pick-entry attributes rest = pick-attributes attributes rest fresh_context

length-entry_events :
    (e : List Attribute) (rest : List YamlEvent) → length rest ≤ length (entry_events e rest)
length-entry_events [] rest = omega arith
length-entry_events (a ∷ more) rest = omega (arith, length-entry_events more rest)

length-entries_events :
    (entries : List (List Attribute)) (rest : List YamlEvent)
    → length entries + length rest < length (entries_events entries rest)
length-entries_events [] rest = omega arith
length-entries_events (e ∷ entries) rest =
    omega (
      arith,
      length-entry_events e (entries_events entries rest),
      length-entries_events entries rest,
    )

pick_patterns-entries :
    (fuel : ℕ) (entries : List (List Attribute)) (rest : List YamlEvent)
    (li : List AggregateContext)
    → length entries < fuel
    → pick_patterns fuel (entries_events entries rest) li
      ≡ some (List.reverse (map context_of entries) ++ li, rest)
unfolding pick_patterns
pick_patterns-entries zero entries rest li h = absurd (omega arith)
pick_patterns-entries (suc fuel) [] rest li h = refl
pick_patterns-entries (suc fuel) (e ∷ entries) rest li h =
    rw (pick_patterns, pick-entry e (entries_events entries rest))
      (pick_patterns-entries fuel entries rest (context_of e ∷ li) (omega arith)
        ∙ ap (λ t. some (t, rest)) regroup)
  where
    regroup :
        List.reverse (map context_of entries) ++ (context_of e ∷ li)
        ≡ List.reverse (context_of e ∷ map context_of entries) ++ li
    regroup =
        sym (append_assoc (List.reverse (map context_of entries)) (context_of e ∷ []) li)
        ∙ ap (λ t. t ++ li) (sym (List.reverse-cons (context_of e) (map context_of entries)))

open_list :
    (fuel : ℕ) (events : List YamlEvent)
    → pick_patterns (suc fuel) (sequence_start ∷ events) [] ≡ pick_patterns fuel events []
unfolding pick_patterns
open_list fuel events = refl

-- The key `patterns` puts the contexts of its entries in the order of the file.
set_patterns-entries :
    (g : Globals) (entries : List (List Attribute)) (rest : List YamlEvent)
    (next : Globals → List YamlEvent → Option (Globals × List YamlEvent))
    → g.contexts ≡ []
    → set_patterns (sequence_start ∷ entries_events entries rest) g next
      ≡ next (record g { contexts = map context_of entries }) rest
unfolding set_patterns is_empty
set_patterns-entries g entries rest next empty =
    rw (empty, picked, AzList.Laws.reverse_lem, append-nil, List.reverse-reverse)
  where
    events : List YamlEvent
    events = sequence_start ∷ entries_events entries rest

    picked :
        pick_patterns (suc (length events)) events []
        ≡ some (List.reverse (map context_of entries) ++ [], rest)
    picked =
        open_list (length events) (entries_events entries rest)
        ∙ pick_patterns-entries (length events) entries rest []
            (omega (arith, length-entries_events entries rest))

pick_global-patterns :
    (fuel : ℕ) (g : Globals) (entries : List (List Attribute)) (rest : List YamlEvent)
    → g.contexts ≡ []
    → pick_global
        (suc fuel)
        g
        (scalar (codes "patterns") ∷ sequence_start ∷ entries_events entries rest)
      ≡ pick_global fuel (record g { contexts = map context_of entries }) rest
unfolding pick_global global_key str_eq
pick_global-patterns fuel g entries rest empty =
    set_patterns-entries g entries rest (pick_global fuel) empty

pick_global-setting :
    (fuel : ℕ) (s : Setting) (rest : List YamlEvent) (g : Globals)
    → pick_global (suc fuel) g (scalar (setting_key s) ∷ scalar (setting_word s) ∷ rest)
      ≡ pick_global fuel (with_setting s g) rest
unfolding pick_global global_key set_global str_eq value_of
pick_global-setting fuel (Setting.logdir v) rest g = refl
pick_global-setting fuel (Setting.port v) rest g = refl
pick_global-setting fuel (Setting.hostname_lookups v) rest g = refl

pick_global-after :
    (fuel : ℕ) (settings : List Setting) (rest : List YamlEvent) (g : Globals)
    → length settings < fuel
    → pick_global fuel g (settings_events settings (mapping_end ∷ rest))
      ≡ some (with_settings settings g, rest)
unfolding pick_global
pick_global-after zero settings rest g h = absurd (omega arith)
pick_global-after (suc fuel) [] rest g h = refl
pick_global-after (suc fuel) (s ∷ more) rest g h =
    pick_global-setting fuel s (settings_events more (mapping_end ∷ rest)) g
    ∙ pick_global-after fuel more rest (with_setting s g) (omega arith)

contexts-with_setting : (s : Setting) (g : Globals) → (with_setting s g).contexts ≡ g.contexts
contexts-with_setting (Setting.logdir v) g = refl
contexts-with_setting (Setting.port v) g = refl
contexts-with_setting (Setting.hostname_lookups v) g = refl

-- What a whole mapping sets.
abbrev pub with_mapping : List Setting → List (List Attribute) → List Setting → Globals → Globals
with_mapping before entries after g =
    with_settings after (record (with_settings before g) { contexts = map context_of entries })

pick_global-mapping :
    (fuel : ℕ) (before : List Setting) (entries : List (List Attribute)) (after : List Setting)
    (rest : List YamlEvent) (g : Globals)
    → g.contexts ≡ []
    → length before + length after + 1 < fuel
    → pick_global fuel g (mapping_events before entries after rest)
      ≡ some (with_mapping before entries after g, rest)
pick_global-mapping zero before entries after rest g empty h = absurd (omega arith)
pick_global-mapping (suc fuel) [] entries after rest g empty h =
    pick_global-patterns fuel g entries (settings_events after (mapping_end ∷ rest)) empty
    ∙ pick_global-after fuel after rest (record g { contexts = map context_of entries })
        (omega arith)
pick_global-mapping (suc fuel) (s ∷ more) entries after rest g empty h =
    pick_global-setting fuel s (mapping_events more entries after rest) g
    ∙ pick_global-mapping fuel more entries after rest (with_setting s g)
        (contexts-with_setting s g ∙ empty) (omega arith)

length-settings_events :
    (settings : List Setting) (rest : List YamlEvent)
    → length settings + length rest ≤ length (settings_events settings rest)
length-settings_events [] rest = omega arith
length-settings_events (s ∷ more) rest = omega (arith, length-settings_events more rest)

length-mapping_events :
    (before : List Setting) (entries : List (List Attribute)) (after : List Setting)
    (rest : List YamlEvent)
    → length before + length after + 1 < length (mapping_events before entries after rest)
length-mapping_events before entries after rest =
    let tail : List YamlEvent = settings_events after (mapping_end ∷ rest) in
    omega (
      arith,
      length-settings_events before
          (scalar (codes "patterns") ∷ sequence_start ∷ entries_events entries tail),
      length-entries_events entries tail,
      length-settings_events after (mapping_end ∷ rest),
    )

load_events-mapping :
    (fuel : ℕ) (g g' : Globals) (events rest : List YamlEvent)
    → pick_global (suc (length events)) g events ≡ some (g', rest)
    → load_events (suc fuel) g (mapping_start ∷ events) ≡ load_events fuel g' rest
unfolding load_events
load_events-mapping fuel g g' events rest e = rw (load_events, e) refl

load_events-end :
    (fuel : ℕ) (g : Globals)
    → 0 < fuel
    → load_events (suc fuel) g (other ∷ stream_end ∷ []) ≡ some g
unfolding load_events
load_events-end zero g h = absurd (omega arith)
load_events-end (suc fuel) g h = refl

-- A configuration file with one list of patterns, any other settings in any order and number before
-- it and behind it, and in the list any entries with any attributes in any order and number, loaded
-- while no contexts are set: loading ends. The contexts are those of the entries, in the order of the
-- file, each with its own attributes: what an entry does not name rotates, has no time, and goes to
-- both files. The other settings are set, of two for the same thing the later, and what no setting
-- names stays as it was.
pub load_config_file-entries :
    (before : List Setting) (entries : List (List Attribute)) (after : List Setting) (g : Globals)
    → g.contexts ≡ []
    → load_config_file
        (some (
          other
          ∷ other
          ∷ mapping_start
          ∷ mapping_events before entries after (other ∷ stream_end ∷ [])))
        g
      ≡ some (with_mapping before entries after g, true)
unfolding load_config_file load_events
load_config_file-entries before entries after g empty =
    ap (λ (o : Option Globals). o >>= λ g'. some (g', true))
      (load_events-mapping (suc (length events)) g (with_mapping before entries after g) events
          (other ∷ stream_end ∷ [])
          (pick_global-mapping (suc (length events)) before entries after (other ∷ stream_end ∷ [])
            g empty (omega (arith, long)))
        ∙ load_events-end (length events) (with_mapping before entries after g)
            (omega (arith, long)))
  where
    events : List YamlEvent
    events = mapping_events before entries after (other ∷ stream_end ∷ [])

    long : length before + length after + 1 < length events
    long = length-mapping_events before entries after (other ∷ stream_end ∷ [])
