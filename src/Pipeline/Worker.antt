-- ===== src/Pipeline/Worker.antt =====
-- The queue of queue/go_chan.go, `register` of api.go, `dispatch` of dispatcher.go and `handle` of
-- worker.go.
use bmw.Base.{
  Bool, List, Option, String, [], false, if◌then◌else◌, length, ltb, nat_eq, none, some, string_eq,
  true, ℕ, ◌%◌, ◌++◌, ◌+◌, ◌^◌, ◌∷◌,
}
use bmw.Pipeline.Types.{RetryJob, Service, done, failed, max_retry, min_buf, need_retry}

module _ (v : Service) where
  open v use {Bytes, World, marshal, unmarshal}

  -- `handle` of worker.go: whether the handler is called, and the job that goes back to a worker.
  unfoldable pub handle_job : RetryJob Bytes → World → World × (Bool × Option (RetryJob Bytes))
  handle_job job w =
      let (w', answer) = v.handle job w in
      if ltb job.retry max_retry
      then (
        w',
        (
          true,
          elim answer [
            | done ↦ none
            | failed ↦ none
            | need_retry ↦ some (record job { retry = (job.retry + 1) % 2 ^ 8 })
          ],
        ),
      )
      else (w, (false, none))

  -- The channel that `NewGoChannelPusherWaiter` makes holds this many items.
  unfoldable pub buffer_size : ℕ → ℕ
  buffer_size buf = if ltb buf min_buf then min_buf else buf

  -- `Push` once its select has fired: the channel with the payload, or the timeout where it stayed
  -- full.
  unfoldable pub push : ℕ → Bytes → List Bytes → Option (List Bytes)
  unfolding buffer_size
  push buf payload queue =
      if ltb (length queue) (buffer_size buf) then some (queue ++ payload ∷ []) else none

  -- The handler that `register` installs, with the body of the request and the identifier that
  -- `RandomString` gave: the channel, and the `id` or the error that is answered.
  unfoldable pub serve_post : ℕ → Bytes → String → List Bytes → List Bytes × Option String
  unfolding push
  serve_post buf body id queue = elim (marshal (record { id = id; retry = 0; payload = body })) [
    | none ↦ (queue, none)
    | some job ↦ elim (push buf job queue) [ none ↦ (queue, none) | some q ↦ (q, some id) ]
  ]

  -- One round of `dispatch`: the job that a worker gets, also where its bytes cannot be read.
  unfoldable pub dispatch : Bytes → RetryJob Bytes
  dispatch bytes = (unmarshal bytes).0
