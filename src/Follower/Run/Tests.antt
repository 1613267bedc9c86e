-- ===== src/Follower/Run/Tests.antt =====
-- Runs of follower/main.c on a follower with two lines in its buffer.
use compostela.Prelude.{inl, ◌≡◌, ◌^◌, refl, [], ◌∷◌, some, arith}
use compostela.Prelude.Words.{pos}
use compostela.Transport.{chunk}
use compostela.Message.{store64, store32, store16, htonl, htons, bswap_64}
use compostela.Follower.Run.{init_file}
use compostela.Follower.Run.Exchange.{Carries}
use compostela.Follower.Run.Init.{init_reply, init_message, init_file_lem, init_file-refuses}
use compostela.Follower.Context.{Net, Env}
use compostela.Prelude.{◌≡◌, refl, [], ◌∷◌, some, none, arith, true, false}
use compostela.Prelude.Words.{pos}
use compostela.Transport.Receive.{stream}
use compostela.Follower.Connection.{is_live}
use compostela.Follower.Connection.Framing.{frame}
use compostela.Follower.Run.{Ran, run_follow_context}
use compostela.Follower.Run.Line.{Delivers, run_follow_context_complete, run_follow_context_partial}
use compostela.Follower.Run.Refusal.{run_follow_context-twice}
use compostela.Follower.Run.Sample.{
  zeroes, env, loaded-Holds, half, half-Holds, cxt, cxt-IsReady, half-IsReady, ok, ng, net,
  refusing, net-Carries, half-Carries, pending, refusing-Carries,
}

run_follow_context_complete_example :
    (r : Ran) × (run_follow_context env cxt net ≡ some r)
    × Delivers true 1700000000 (97 ∷ 10 ∷ []) (98 ∷ []) cxt net r
    × (stream (r.net).events ≡ [])
unfolding is_live
run_follow_context_complete_example =
    run_follow_context_complete env zeroes cxt net (97 ∷ []) (98 ∷ []) ok [] refl refl cxt-IsReady
      loaded-Holds ((λ e. absurd (omega (arith, e))), tt) (omega arith) net-Carries refl

run_follow_context_partial_example :
    (r : Ran) × (run_follow_context env (record cxt { buffer = half }) net ≡ some r)
    × Delivers false 1700000000 (98 ∷ []) [] (record cxt { buffer = half }) net r
    × (stream (r.net).events ≡ [])
unfolding is_live
run_follow_context_partial_example =
    run_follow_context_partial env zeroes (record cxt { buffer = half }) net (98 ∷ []) ok [] refl
      refl half-IsReady half-Holds ((λ e. absurd (omega (arith, e))), tt) (omega arith) half-Carries
      refl

run_follow_context-twice_example :
    (r : Ran) × (run_follow_context env pending refusing ≡ some r)
    × (r.ret ≡ pos 0)
    × ((r.net).wire ≡ frame pending.message_buffer)
    × (run_follow_context env r.cxt r.net ≡ none)
unfolding is_live
run_follow_context-twice_example =
    run_follow_context-twice env zeroes pending refusing ng [] refl refl
      (record {
        code_in = omega arith;
        channel_in = omega arith;
        length_in = omega arith;
        room = omega arith;
      })
      (omega arith) (omega arith) (omega arith) refusing-Carries refl

-- The answer to an `INIT`: channel 3, five bytes there already.
abbrev opening : Net
opening = record net {
  events =
      chunk 3 (233 ∷ 0 ∷ 3 ∷ []) ∷ chunk 0 (0 ∷ 0 ∷ 8 ∷ 0 ∷ 0 ∷ 0 ∷ 0 ∷ 0 ∷ 0 ∷ 0 ∷ 5 ∷ []) ∷ [];
}

opening-Carries : Carries opening 5 (init_reply 3 5 []) []
unfolding store64 store32 store16 htonl htons bswap_64
opening-Carries = record {
  takes = tt;
  enough = omega arith;
  valid = record {
    code_in = omega arith;
    channel_in = omega arith;
    length_in = omega arith;
    room = omega arith;
  };
  answered = refl;
}

init_file_lem_example :
    (net' : Net) × (init_file env cxt opening
      ≡ some (pos 0, record cxt { channel = 3; position = 5; offset = 5 }, net'))
    × (net'.wire ≡ frame (init_message (2 ^ 31) (102 ∷ [])))
    × (net'.conn ≡ opening.conn)
    × (stream net'.events ≡ [])
init_file_lem_example =
    init_file_lem env zeroes cxt opening (102 ∷ []) 3 5 [] [] refl refl (omega arith) (omega arith)
      refl opening-Carries (inl refl)

-- The file of the context is there, and every digest is 7.
abbrev known : Env
known = record env { files = λ path. some (5 ∷ []); md5 = λ bytes. 7 ∷ [] }

abbrev mismatched : Net
mismatched = record net {
  events =
      chunk 3 (233 ∷ 0 ∷ 3 ∷ [])
      ∷ chunk 0 (0 ∷ 0 ∷ 9 ∷ 0 ∷ 0 ∷ 0 ∷ 0 ∷ 0 ∷ 0 ∷ 0 ∷ 1 ∷ 8 ∷ [])
      ∷ [];
}

mismatched-Carries : Carries mismatched 5 (init_reply 3 1 (8 ∷ [])) []
unfolding store64 store32 store16 htonl htons bswap_64
mismatched-Carries = record {
  takes = tt;
  enough = omega arith;
  valid = record {
    code_in = omega arith;
    channel_in = omega arith;
    length_in = omega arith;
    room = omega arith;
  };
  answered = refl;
}

init_file-refuses_example : init_file known cxt mismatched ≡ none
init_file-refuses_example =
    init_file-refuses known zeroes cxt mismatched (102 ∷ []) 3 1 (8 ∷ []) [] (102 ∷ []) (5 ∷ [])
      refl refl (omega arith) (omega arith) mismatched-Carries refl refl (omega arith)
      (λ e. ground (arith, e))
