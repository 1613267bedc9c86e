-- ===== src/Aggregator/Sample.antt =====
-- A registry of two channels and their surroundings in aggregator/main.c, for the tests.
use compostela.Prelude.{List, ℕ, refl, [], ◌∷◌, Option, some, none, arith, true, false}
use compostela.AzBuffer.{AzBuffer}
use compostela.AzBuffer.Holds.{Holds}
use compostela.Supports.{Files}
use compostela.Aggregator.Config.{AggregateContext}
use compostela.Aggregator.Config.Settings.{Attribute, merge, context_of}
use compostela.Aggregator.Channels.{Channel, Connection}
use compostela.Aggregator.Channels.Registry.{IsRegistry}
use compostela.Aggregator.Files.{Env}

abbrev pub rotating : List Attribute
rotating = Attribute.display_name (98 ∷ []) ∷ Attribute.path (97 ∷ []) ∷ []

abbrev pub merged : List Attribute
merged =
    Attribute.mode merge
    ∷ Attribute.path (99 ∷ [])
    ∷ Attribute.display_name (98 ∷ [])
    ∷ Attribute.timestamp true
    ∷ Attribute.rotate false
    ∷ []

-- A buffer of four bytes, one of which waits.
abbrev pub waiting : AzBuffer
waiting = record { buffer = 104 ∷ 0 ∷ 0 ∷ 0 ∷ []; cursor = 0; size = 4; used = 1 }

pub waiting-Holds : Holds waiting (104 ∷ [])
waiting-Holds = record {
  before = [];
  after = 0 ∷ 0 ∷ 0 ∷ [];
  layout = refl;
  start = refl;
  stop = refl;
  room = refl;
  small = omega arith;
}

abbrev pub channel_at : ℕ → ℕ → Option AggregateContext → Channel
channel_at self id aggr = record {
  self = self;
  id = id;
  filename = 102 ∷ [];
  filename_fullpath = 47 ∷ 102 ∷ [];
  buffer = waiting;
  aggregate_context = aggr;
}

abbrev pub young : Channel
young = channel_at 500 2 none

abbrev pub old : Channel
old = channel_at 300 1 none

abbrev pub conn : Connection
conn = record { remote_addr = some (104 ∷ []); channel_list = young ∷ old ∷ []; socket = 5 }

pub conn-IsRegistry : IsRegistry (young ∷ old ∷ [])
conn-IsRegistry = record {
  ordered = (omega arith, omega arith, (omega arith, omega arith, tt));
  apart = (((λ e. absurd (omega (arith, e))), tt), (tt, tt));
}

abbrev pub zeroes : ℕ → ℕ
zeroes n = 0

abbrev pub env : Env
env = record {
  heap = some zeroes;
  creatable = λ p. true;
  strftime = λ t. [];
  md5 = λ bytes. [];
  fnmatch = λ pattern path. false;
  logdir = some (108 ∷ []);
  contexts = [];
}

abbrev pub no_files : Files
no_files path = none

abbrev pub apart : Channel
apart = channel_at 900 3 (some (record (context_of merged) { f_separate = true; f_merge = false }))
