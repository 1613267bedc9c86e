-- ===== src/Follower/Config/Tests.antt =====
-- A configuration of the follower.
use compostela.Prelude.{◌≡◌, refl, List, [], ◌∷◌, some, none, true, false}
use compostela.Prelude.Text.{codes, strtoul_int}
use compostela.Yaml.{mapping_start, stream_end, other}
use compostela.Follower.Config.{initial, load_config_file, clean_config}
use compostela.Follower.Config.Settings.{Attribute, Setting, settings_events}
use compostela.Follower.Config.Loading.{load_config_file-settings}

abbrev settings : List Setting
settings =
    Setting.waiting (codes "5")
    ∷ Setting.patterns (
        (Attribute.rotate true ∷ Attribute.path (codes "a") ∷ [])
        ∷ (Attribute.path (codes "b") ∷ Attribute.display_name (codes "c") ∷ [])
        ∷ [])
    ∷ Setting.server (codes "host")
    ∷ []

load_config_file-settings_example :
    load_config_file
      (some (other ∷ other ∷ mapping_start ∷ settings_events settings (other ∷ stream_end ∷ [])))
      initial
    ≡ some (
      record {
        server_address = some (codes "host");
        server_port = 0;
        waiting_seconds = 5;
        control_path = none;
        patterns =
            record {
              path = some (codes "b");
              display_name = some (codes "c");
              rotate = false;
              append_timestamp = false;
            }
            ∷ record {
              path = some (codes "a");
              display_name = none;
              rotate = true;
              append_timestamp = false;
            }
            ∷ [];
      },
      true,
    )
unfolding strtoul_int
load_config_file-settings_example = load_config_file-settings settings initial

cleaned : (clean_config (record initial { server_port = 7 })).server_port ≡ 7
unfolding clean_config
cleaned = refl
