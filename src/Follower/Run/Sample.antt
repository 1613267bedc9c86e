-- ===== src/Follower/Run/Sample.antt =====
-- A follower of follower/main.c with two lines in its buffer, for the tests.
use compostela.Prelude.{ℕ, refl, List, [], ◌∷◌, some, none, arith, true, false}
use compostela.Prelude.Words.{pos}
use compostela.AzBuffer.{AzBuffer, fill}
use compostela.AzBuffer.Holds.{Holds, length-fill}
use compostela.Transport.{Sent, took, chunk, again}
use compostela.Message.{Message}
use compostela.Follower.Context.{FollowContext, Net, Env}
use compostela.Follower.Run.Exchange.{Carries}
use compostela.Follower.Run.Line.{IsReady}

abbrev pub zeroes : ℕ → ℕ
zeroes n = 0

abbrev pub env : Env
env = record {
  heap = some zeroes;
  stack = [];
  time = 1700000000;
  md5 = λ bytes. [];
  files = λ path. none;
  opens = λ path. none;
  reads = λ offset count. none;
  seeks = λ position. true;
  errno_again = true;
}

-- `a`, newline, `b`.
abbrev pub loaded : AzBuffer
loaded = record { buffer = 97 ∷ 10 ∷ 98 ∷ 0 ∷ []; cursor = 0; size = 4; used = 3 }

pub loaded-Holds : Holds loaded (97 ∷ 10 ∷ 98 ∷ [])
loaded-Holds = record {
  before = [];
  after = 0 ∷ [];
  layout = refl;
  start = refl;
  stop = refl;
  room = refl;
  small = omega arith;
}

abbrev pub half : AzBuffer
half = record loaded { cursor = 2 }

pub half-Holds : Holds half (98 ∷ [])
half-Holds = record {
  before = 97 ∷ 10 ∷ [];
  after = 0 ∷ [];
  layout = refl;
  start = refl;
  stop = refl;
  room = refl;
  small = omega arith;
}

abbrev pub cxt : FollowContext
cxt = record {
  channel = 1;
  filename = some (102 ∷ []);
  position = 0;
  regular = true;
  fd = pos 7;
  offset = 3;
  buffer = loaded;
  message_buffer = record {
    code = 0;
    channel = 0;
    content_length = 8192;
    content = fill zeroes 8192;
  };
  display_name = some (102 ∷ []);
  ftimestamp = false;
}

pub cxt-IsReady : IsReady cxt
cxt-IsReady = record {
  no_message = refl;
  opened = refl;
  numbered = omega arith;
  channel_in = omega arith;
  room = length-fill zeroes 8192;
}

pub half-IsReady : IsReady (record cxt { buffer = half })
half-IsReady = record {
  no_message = refl;
  opened = refl;
  numbered = omega arith;
  channel_in = omega arith;
  room = length-fill zeroes 8192;
}

-- An OK on channel 1, in two pieces, and a refusal.
abbrev pub ok : Message
ok = record { code = 1001; channel = 1; content_length = 4; content = 0 ∷ 0 ∷ 0 ∷ 0 ∷ [] }

abbrev pub ng : Message
ng = record { code = 1999; channel = 0; content_length = 0; content = [] }

abbrev pub sends : List Sent
sends =
    took 9
    ∷ took 9
    ∷ took 0
    ∷ took 0
    ∷ took 0
    ∷ took 0
    ∷ took 0
    ∷ took 0
    ∷ took 0
    ∷ took 0
    ∷ took 0
    ∷ took 0
    ∷ took 0
    ∷ took 0
    ∷ took 0
    ∷ took 0
    ∷ took 0
    ∷ took 0
    ∷ took 0
    ∷ took 0
    ∷ took 0
    ∷ took 0
    ∷ []

abbrev pub net : Net
net = record {
  conn = record { socket = pos 4; host = 104 ∷ []; port = 8197 };
  answers = sends;
  events = chunk 3 (233 ∷ 0 ∷ []) ∷ again ∷ chunk 1 (0 ∷ 0 ∷ 0 ∷ 4 ∷ 0 ∷ 0 ∷ 0 ∷ 0 ∷ []) ∷ [];
  wire = [];
}

abbrev pub refusing : Net
refusing = record net { events = chunk 7 (207 ∷ 0 ∷ 0 ∷ 0 ∷ 0 ∷ 0 ∷ 0 ∷ []) ∷ [] }

pub net-Carries : Carries net 14 ok []
net-Carries = record {
  takes = tt;
  enough = omega arith;
  valid = record {
    code_in = omega arith;
    channel_in = omega arith;
    length_in = omega arith;
    room = omega arith;
  };
  answered = refl;
}

pub half-Carries : Carries net 13 ok []
half-Carries = record {
  takes = tt;
  enough = omega arith;
  valid = net-Carries.valid;
  answered = refl;
}

-- A context whose message waits.
abbrev pub pending : FollowContext
pending = record cxt {
  message_buffer = record {
    code = 103;
    channel = 1;
    content_length = 13;
    content = 128 ∷ 0 ∷ 0 ∷ 0 ∷ 0 ∷ 0 ∷ 0 ∷ 0 ∷ 0 ∷ 0 ∷ 0 ∷ 1 ∷ 98 ∷ [];
  };
}

pub refusing-Carries : Carries refusing 13 ng []
refusing-Carries = record {
  takes = tt;
  enough = omega arith;
  valid = record {
    code_in = omega arith;
    channel_in = omega arith;
    length_in = omega arith;
    room = omega arith;
  };
  answered = refl;
}
