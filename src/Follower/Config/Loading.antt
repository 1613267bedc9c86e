-- ===== src/Follower/Config/Loading.antt =====
-- What follower/appconfig.c makes of a configuration file.
use compostela.Prelude.{
  ℕ, zero, suc, ◌+◌, ◌<◌, ◌≤◌, ◌≡◌, refl, ap, ◌∙◌, List, [], ◌∷◌, Option, some, ◌>>=◌, true, false,
  arith, length, str_eq,
}
use compostela.Prelude.Text.{str_case_eq}
use compostela.AzList
use compostela.Yaml.{YamlEvent, sequence_start, mapping_start, stream_end, other, value_of}
use compostela.Follower.Config.{
  Pattern, Globals, fresh_entry, set_key, pick_pattern_entry, pick_patterns, set_global,
  set_patterns, global_key, pick_global, load_events, load_config_file,
}
use compostela.Follower.Config.Settings.{
  Attribute, attribute_events, with_attribute, with_attributes, entry_events, entries_events,
  patterns_of, Setting, setting_events, with_setting, with_settings, settings_events,
}

pick-attribute :
    (a : Attribute) (rest : List YamlEvent) (e : Pattern)
    → pick_pattern_entry (attribute_events a rest) e ≡ pick_pattern_entry rest (with_attribute a e)
unfolding pick_pattern_entry set_key str_eq str_case_eq value_of
pick-attribute (Attribute.path v) rest e = refl
pick-attribute (Attribute.display_name v) rest e = refl
pick-attribute (Attribute.rotate true) rest e = refl
pick-attribute (Attribute.rotate false) rest e = refl
pick-attribute (Attribute.timestamp true) rest e = refl
pick-attribute (Attribute.timestamp false) rest e = refl

pick-entry :
    (attributes : List Attribute) (rest : List YamlEvent) (e : Pattern)
    → pick_pattern_entry (entry_events attributes rest) e
      ≡ some (with_attributes attributes e, rest)
unfolding pick_pattern_entry
pick-entry [] rest e = refl
pick-entry (a ∷ more) rest e =
    pick-attribute a (entry_events more rest) e ∙ pick-entry more rest (with_attribute a e)

length-attribute_events :
    (a : Attribute) (rest : List YamlEvent) → length rest ≤ length (attribute_events a rest)
length-attribute_events (Attribute.path v) rest = omega arith
length-attribute_events (Attribute.display_name v) rest = omega arith
length-attribute_events (Attribute.rotate b) rest = omega arith
length-attribute_events (Attribute.timestamp b) rest = omega arith

length-entry_events :
    (e : List Attribute) (rest : List YamlEvent) → length rest ≤ length (entry_events e rest)
length-entry_events [] rest = omega arith
length-entry_events (a ∷ more) rest =
    omega (arith, length-attribute_events a (entry_events more rest), length-entry_events more rest)

length-entries_events :
    (entries : List (List Attribute)) (rest : List YamlEvent)
    → length entries + length rest < length (entries_events entries rest)
length-entries_events [] rest = omega arith
length-entries_events (e ∷ entries) rest =
    omega (
      arith,
      length-entry_events e (entries_events entries rest),
      length-entries_events entries rest,
    )

pick_patterns-entries :
    (fuel : ℕ) (entries : List (List Attribute)) (rest : List YamlEvent) (li : List Pattern)
    → length entries < fuel
    → pick_patterns fuel (entries_events entries rest) li ≡ some (patterns_of entries li, rest)
unfolding pick_patterns AzList.add
pick_patterns-entries zero entries rest li h = absurd (omega arith)
pick_patterns-entries (suc fuel) [] rest li h = refl
pick_patterns-entries (suc fuel) (e ∷ entries) rest li h =
    rw (pick_patterns, pick-entry e (entries_events entries rest) fresh_entry)
      (pick_patterns-entries fuel entries rest (with_attributes e fresh_entry ∷ li) (omega arith))

open_list :
    (fuel : ℕ) (events : List YamlEvent)
    → pick_patterns (suc fuel) (sequence_start ∷ events) [] ≡ pick_patterns fuel events []
unfolding pick_patterns
open_list fuel events = refl

pick_global-setting :
    (fuel : ℕ) (s : Setting) (rest : List YamlEvent) (g : Globals)
    → pick_global (suc fuel) g (setting_events s rest) ≡ pick_global fuel (with_setting s g) rest
unfolding pick_global global_key set_global set_patterns str_eq value_of
pick_global-setting fuel (Setting.server v) rest g = refl
pick_global-setting fuel (Setting.port v) rest g = refl
pick_global-setting fuel (Setting.control_path v) rest g = refl
pick_global-setting fuel (Setting.waiting_seconds v) rest g = refl
pick_global-setting fuel (Setting.waiting v) rest g = refl
pick_global-setting fuel (Setting.patterns entries) rest g =
    rw
      (
        pick_global,
        open_list (length (sequence_start ∷ entries_events entries rest))
            (entries_events entries rest),
        pick_patterns-entries (length (sequence_start ∷ entries_events entries rest)) entries rest
            [] (omega (arith, length-entries_events entries rest)),
      )
      refl

pick_global-settings :
    (fuel : ℕ) (settings : List Setting) (rest : List YamlEvent) (g : Globals)
    → length settings < fuel
    → pick_global fuel g (settings_events settings rest) ≡ some (with_settings settings g, rest)
unfolding pick_global
pick_global-settings zero settings rest g h = absurd (omega arith)
pick_global-settings (suc fuel) [] rest g h = refl
pick_global-settings (suc fuel) (s ∷ more) rest g h =
    pick_global-setting fuel s (settings_events more rest) g
    ∙ pick_global-settings fuel more rest (with_setting s g) (omega arith)

length-setting_events :
    (s : Setting) (rest : List YamlEvent) → length rest < length (setting_events s rest)
length-setting_events (Setting.server v) rest = omega arith
length-setting_events (Setting.port v) rest = omega arith
length-setting_events (Setting.control_path v) rest = omega arith
length-setting_events (Setting.waiting_seconds v) rest = omega arith
length-setting_events (Setting.waiting v) rest = omega arith
length-setting_events (Setting.patterns entries) rest =
    omega (arith, length-entries_events entries rest)

length-settings_events :
    (settings : List Setting) (rest : List YamlEvent)
    → length settings < length (settings_events settings rest)
length-settings_events [] rest = omega arith
length-settings_events (s ∷ more) rest =
    omega
      (arith, length-setting_events s (settings_events more rest), length-settings_events more rest)

load_events-mapping :
    (fuel : ℕ) (g g' : Globals) (events rest : List YamlEvent)
    → pick_global (suc (length events)) g events ≡ some (g', rest)
    → load_events (suc fuel) g (mapping_start ∷ events) ≡ load_events fuel g' rest
unfolding load_events
load_events-mapping fuel g g' events rest e = rw (load_events, e) refl

load_events-end :
    (fuel : ℕ) (g : Globals)
    → 0 < fuel
    → load_events (suc fuel) g (other ∷ stream_end ∷ []) ≡ some g
unfolding load_events
load_events-end zero g h = absurd (omega arith)
load_events-end (suc fuel) g h = refl

-- A configuration file whose mapping has any settings in any order, each any number of times, and
-- in the lists of patterns any entries with any attributes in any order: loading it ends, and sets
-- what the settings say, of two for the same thing the later. What no setting names stays as it was.
-- The patterns of the last list are there, each with its own attributes, the last entry in front.
pub load_config_file-settings :
    (settings : List Setting) (g : Globals)
    → load_config_file
        (some (other ∷ other ∷ mapping_start ∷ settings_events settings (other ∷ stream_end ∷ [])))
        g
      ≡ some (with_settings settings g, true)
unfolding load_config_file load_events
load_config_file-settings settings g =
    ap (λ (o : Option Globals). o >>= λ g'. some (g', true))
      (load_events-mapping (suc (length events)) g (with_settings settings g) events
          (other ∷ stream_end ∷ [])
          (pick_global-settings (suc (length events)) settings (other ∷ stream_end ∷ []) g
            (omega (arith, long)))
        ∙ load_events-end (length events) (with_settings settings g) (omega (arith, long)))
  where
    events : List YamlEvent
    events = settings_events settings (other ∷ stream_end ∷ [])

    long : length settings < length events
    long = length-settings_events settings (other ∷ stream_end ∷ [])
