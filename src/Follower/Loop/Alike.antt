-- ===== src/Follower/Loop/Alike.antt =====
-- What leaves the buffer and the message of a context of follower/main.c as they are: opening its
-- file, and the exchange of an `INIT`.
use compostela.Prelude.{
  ◌+◌, ◌≡◌, refl, subst, ◌++◌, some, ◌>>=◌, not, arith, length, Bool-cases, Option-cases, inl, inr,
  >>=-eq-some, ◌==◌, ◌&&◌, ltb, if◌then◌else◌, drop,
}
use compostela.Prelude.Words.{ℤ}
use compostela.Message.{
  Message, htonl, store32, load64, bswap_64, scm_resp_ok, scm_msg_init, scm_msg_none, scm_msg_data,
}
use compostela.Message
use compostela.Follower.Connection.{is_live}
use compostela.Follower.Context.{FollowContext, Net, Env, exchange, is_zero, open_file}
use compostela.Follower.Run.{init_file, accept_init, check_digest}

-- What changes neither the buffer nor the message.
abbrev pub IsLike : FollowContext → FollowContext → Type 0
IsLike cxt cxt' = (cxt.buffer ≡ cxt'.buffer) × (cxt.message_buffer ≡ cxt'.message_buffer)

accept_init-IsLike :
    (env : Env) (cxt : FollowContext) (resp : Message) {cxt' : FollowContext}
    → accept_init env cxt resp ≡ some cxt'
    → IsLike cxt cxt'
unfolding accept_init
accept_init-IsLike env cxt resp {cxt'} e =
    let at_ = >>=-eq-some (load64 resp.content) _ e in
    let checked =
      >>=-eq-some
        (if ltb 8 resp.content_length
          then check_digest env cxt.filename (bswap_64 at_.0) (drop 8 resp.content)
          else some tt)
        _ at_.2 in
    (ground (arith, checked.2), ground (arith, checked.2))

pub init_file-IsLike :
    (env : Env) (cxt : FollowContext) (net : Net) {r : ℤ × FollowContext × Net}
    → init_file env cxt net ≡ some r
    → IsLike cxt r.1
unfolding init_file
init_file-IsLike env cxt net {r} e =
    let name = >>=-eq-some cxt.display_name _ e in
    elim (Option-cases (Message.new env.heap (length name.0 + 4))) [
      | inl no_memory ↦
          let same : cxt ≡ r.1 = ground (arith, (rw no_memory at (name.2))) in
          subst (IsLike cxt) same (refl, refl)
      | inr msg ↦
          let x =
            >>=-eq-some
              (exchange env net (record (msg.0) {
                code = scm_msg_init;
                channel = 0;
                content =
                    store32 (htonl (if cxt.regular && not cxt.ftimestamp then 2147483648 else 0))
                    ++ name.0;
              }))
              _ (rw (msg.1) at (name.2)) in
          elim (Bool-cases (is_zero (x.0).sent)) [
            | inr unsent ↦
                let same : cxt ≡ r.1 = ground (arith, (rw unsent at (x.2))) in
                subst (IsLike cxt) same (refl, refl)
            | inl sent ↦ elim (Bool-cases (is_zero (x.0).got)) [
              | inr silent ↦
                  let same : cxt ≡ r.1 = ground (arith, (rw (sent, silent) at (x.2))) in
                  subst (IsLike cxt) same (refl, refl)
              | inl answered ↦
                  let resp = >>=-eq-some (x.0).resp _ (rw (sent, answered) at (x.2)) in
                  elim (Bool-cases ((resp.0).code == scm_resp_ok)) [
                    | inr refused ↦
                        let same : cxt ≡ r.1 = ground (arith, (rw refused at (resp.2))) in
                        subst (IsLike cxt) same (refl, refl)
                    | inl ok ↦
                        let taken =
                          >>=-eq-some (accept_init env cxt resp.0) _ (rw ok at (resp.2)) in
                        let same : taken.0 ≡ r.1 = ground (arith, taken.2) in
                        subst (IsLike cxt) same (accept_init-IsLike env cxt resp.0 taken.1)
                  ]
            ]
          ]
    ]

pub open_file-IsLike : (env : Env) (cxt : FollowContext) → IsLike cxt (open_file env cxt).1
unfolding open_file
open_file-IsLike env cxt = elim (Bool-cases (is_live cxt.fd)) [
  | inl open_already ↦ rw (open_file, open_already) (refl, refl)
  | inr closed ↦ elim (Option-cases (cxt.filename >>= env.opens)) [
    | inl missing ↦ rw (open_file, closed, missing) (refl, refl)
    | inr found ↦ rw (open_file, closed, found.1) (refl, refl)
  ]
]
