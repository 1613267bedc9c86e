-- ===== src/Follower/Rotate/Tests.antt =====
-- A rotation of follower/main.c over a file that is followed and one that is not.
use compostela.Prelude.{◌≡◌, refl, [], ◌∷◌, some, none, true, false, arith, str_eq}
use compostela.Prelude.Words.{negsuc}
use compostela.Prelude.Memory.{mem_chr}
use compostela.AzList
use compostela.AzBuffer
use compostela.AzBuffer.{fill}
use compostela.Message
use compostela.Follower.Context
use compostela.Follower.Context.{FollowContext}
use compostela.Follower.Run.Sample.{env, zeroes, cxt, net}
use compostela.Follower.Rotate.{
  PatternEntry, Clock, search, do_rotate, file_name, left_name, shown_name, has_percent,
}
use compostela.Follower.Rotate.Stable.{AllFollowed, do_rotate-stable}

abbrev clock : Clock
clock = record { strftime = λ s. s; basename = λ s. (s, s) }

abbrev here : PatternEntry
here = record { path = 102 ∷ []; display_name = none; rotate = true; append_timestamp = false }

abbrev there : PatternEntry
there = record {
  path = 103 ∷ [];
  display_name = some (104 ∷ []);
  rotate = false;
  append_timestamp = true;
}

abbrev made : FollowContext
made = record {
  channel = 0;
  filename = some (103 ∷ []);
  position = 0;
  regular = false;
  fd = negsuc 0;
  offset = 0;
  buffer = record { buffer = fill zeroes 8192; cursor = 0; size = 8192; used = 0 };
  message_buffer = record {
    code = 0;
    channel = 0;
    content_length = 8192;
    content = fill zeroes 8192;
  };
  display_name = some (104 ∷ []);
  ftimestamp = true;
}

rotates : do_rotate env clock (here ∷ there ∷ []) (cxt ∷ []) net ≡ some (made ∷ cxt ∷ [], net)
unfolding do_rotate search file_name left_name shown_name has_percent mem_chr str_eq Context.new
    AzBuffer.new Message.new AzList.add
rotates = refl

do_rotate-stable_example :
    AllFollowed clock (made ∷ cxt ∷ []) (here ∷ there ∷ [])
    × (do_rotate env clock (here ∷ there ∷ []) (made ∷ cxt ∷ []) net ≡ some (made ∷ cxt ∷ [], net))
unfolding left_name file_name has_percent mem_chr
do_rotate-stable_example =
    do_rotate-stable env env clock (here ∷ there ∷ []) (cxt ∷ []) net net
      (((λ e. ground (arith, e)), tt), (tt, tt)) rotates
