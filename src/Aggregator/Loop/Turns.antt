-- ===== src/Aggregator/Loop/Turns.antt =====
-- A turn of `do_receive` of aggregator/main.c leaves the channels of its connection in order.
use compostela.Prelude.{
  ℕ, ◌+◌, ◌^◌, ◌≤◌, ◌≡◌, refl, subst, List, ◌++◌, some, arith, Bool, true, false, length,
  Bool-cases, Option-cases, inl, inr, ◌&&◌, >>=-eq-some, leb, ltb, guard, drop, length-append,
  length-drop,
}
use compostela.Prelude.Words.{is_pos}
use compostela.Transport.{Event, recvall}
use compostela.Message.{Header, load_header, header_size}
use compostela.Aggregator.Files.{Env}
use compostela.Aggregator.Handlers.{Server}
use compostela.Aggregator.Receive.{
  Turn, served, dropped, dispatch, bufsize, with_content, with_header, do_receive,
}
use compostela.Aggregator.Loop.Served.{IsServed}
use compostela.Aggregator.Loop.Dispatching.{CanServe, dispatch-IsServed}

-- What a turn leaves: channels in order, where the connection goes on.
abbrev pub TurnServed : ℕ → Turn → Type 0
TurnServed size (served s events) = IsServed size (s.conn).channel_list
TurnServed size (dropped events) = Unit {0}

length-block :
    (got memory : List ℕ)
    → length memory ≤ bufsize
    → length got ≤ bufsize
    → length (got ++ drop (length got) memory) ≤ bufsize
length-block got memory m g =
    omega (arith, length-append got (drop (length got) memory), length-drop (length got) memory)

guard-true : (b : Bool) (u : Unit {0}) → guard b ≡ some u → b ≡ true
guard-true true u e = refl
guard-true false u e = cc

with_content-Served :
    (env : Env) (self : ℕ) (memory : List ℕ) (s : Server) (h : Header) (events : List Event)
    {t : Turn} (size : ℕ)
    → CanServe env self memory s size
    → IsServed size (s.conn).channel_list
    → with_content env self memory s h events ≡ some (some t)
    → TurnServed (size + bufsize) t
unfolding with_content
with_content-Served env self memory s h events {t} size can v e =
    elim (Bool-cases (ltb 0 h.content_length && ltb h.content_length (2 ^ 31))) [
      | inr empty ↦
          let done =
            >>=-eq-some (dispatch env self h memory s) (λ s'. some (some (served s' events)))
              (rw empty at e) in
          let it : served done.0 events ≡ t = ground (arith, done.2) in
          subst (TurnServed (size + bufsize)) it
            (dispatch-IsServed env self h memory s size can v done.1)
      | inl wanted ↦ elim (Option-cases (recvall events h.content_length)) [
        | inl waits ↦ absurd (ground (arith, (rw waits at (rw wanted at e))))
        | inr r ↦
            let got : List ℕ = (r.0).got in
            let fit =
              >>=-eq-some (guard (leb (length got) bufsize)) _ (rw (r.1) at (rw wanted at e)) in
            let content : List ℕ = got ++ drop (length got) memory in
            let done =
              >>=-eq-some (dispatch env self h content s)
                (λ s'. some (some (served s' (r.0).events))) fit.2 in
            let fits : leb (length got) bufsize ≡ true = guard-true _ fit.0 fit.1 in
            let can' : CanServe env self content s size = record {
              junk = can.junk;
              memory = can.memory;
              fresh = can.fresh;
              short = length-block got memory can.short (ground (arith, fits));
              least = can.least;
              room = can.room;
            } in
            let it : served done.0 (r.0).events ≡ t = ground (arith, done.2) in
            subst (TurnServed (size + bufsize)) it
              (dispatch-IsServed env self h content s size can' v done.1)
      ]
    ]

-- Whatever arrives, a turn that ends leaves the channels in order, or gives the connection up.
pub do_receive-Served :
    (env : Env) (self : ℕ) (stack memory : List ℕ) (s : Server) (events : List Event) {t : Turn}
    (size : ℕ)
    → CanServe env self memory s size
    → IsServed size (s.conn).channel_list
    → do_receive env self stack memory s events ≡ some (some t)
    → TurnServed (size + bufsize) t
unfolding do_receive with_header
do_receive-Served env self stack memory s events {t} size can v e =
    elim (Option-cases (recvall events header_size)) [
      | inl waits ↦ absurd (ground (arith, (rw (do_receive, waits) at e)))
      | inr r ↦ elim (Bool-cases (is_pos (r.0).ret)) [
        | inr over ↦
            let it : dropped (r.0).events ≡ t =
              ground (arith, (rw over at (rw (do_receive, r.1) at e))) in
            subst (TurnServed (size + bufsize)) it tt
        | inl live ↦
            let h =
              >>=-eq-some (load_header ((r.0).got ++ drop (length (r.0).got) stack)) _
                (rw live at (rw (do_receive, r.1) at e)) in
            with_content-Served env self memory s h.0 (r.0).events size can v h.2
      ]
    ]
