-- ===== src/Records/Writer.antt =====
-- `RecordWriter`. A poll of the stream below it takes the next `Accept` from a list; `sent` is what
-- that stream has taken so far, in order.
use hawse.Base.{
  ℕ, zero, suc, List, [], ◌∷◌, ◌++◌, Bool, true, false, length, take, drop, min, ◌==◌,
  if◌then◌else◌,
}
use hawse.Proto.Record.{data_head, reset_head, finish_tag, max_data}

-- What a poll of the stream below does: it takes up to so many bytes (or is ready, for a flush or a
-- shutdown), is not ready, or fails.
pub data Accept : Type 0 where
  takes : ℕ → Accept
  stalls : Accept
  fails : Accept

-- What a poll of the writer's own drain, flush or shutdown gives.
pub data Progress : Type 0 where
  done : Progress
  not_ready : Progress
  error : Progress

pub record Writer : Type 0 where
  pub buf : List ℕ
  pub ended : Bool
  pub sent : List ℕ
  pub inner : List Accept
  pub closed : Bool

abbrev pub new : List Accept → Writer
new inner = record { buf = []; ended = false; sent = []; inner = inner; closed = false }

-- `poll_drain`: a poll that takes no byte is the error `WriteZero`. The list is the schedule; where
-- it has run out the stream below is not ready.
unfoldable pub drain : List Accept → List ℕ → List ℕ → Progress × List ℕ × List ℕ × List Accept
drain inner [] sent = (done, [], sent, inner)
drain [] (b ∷ bs) sent = (not_ready, b ∷ bs, sent, [])
drain (stalls ∷ rest) (b ∷ bs) sent = (not_ready, b ∷ bs, sent, rest)
drain (fails ∷ rest) (b ∷ bs) sent = (error, b ∷ bs, sent, rest)
drain (takes zero ∷ rest) (b ∷ bs) sent = (error, b ∷ bs, sent, rest)
drain (takes (suc n) ∷ rest) (b ∷ bs) sent = drain rest (drop n bs) (sent ++ b ∷ take n bs)

unfoldable pub poll_drain : Writer → Progress × Writer
unfolding drain
poll_drain w =
    let (p, buf, sent, inner) = drain w.inner w.buf w.sent in
    (p, record w { buf = buf; sent = sent; inner = inner })

-- A flush of the stream below.
unfoldable pub flush_inner : List Accept → Progress × List Accept
flush_inner [] = (not_ready, [])
flush_inner (takes n ∷ rest) = (done, rest)
flush_inner (stalls ∷ rest) = (not_ready, rest)
flush_inner (fails ∷ rest) = (error, rest)

unfoldable pub is_done : Progress → Bool
is_done done = true
is_done _ = false

-- A shutdown of the stream below.
unfoldable pub shutdown_inner : Writer → Progress × Writer
unfolding flush_inner is_done
shutdown_inner w =
    let (p, inner) = flush_inner w.inner in
    (p, record w { inner = inner; closed = if is_done p then true else w.closed })

unfoldable pub end_with : List ℕ → Writer → Writer
end_with last w = if w.ended then w else record w { buf = w.buf ++ last; ended = true }

-- `Poll::is_ready`: an error is ready too.
unfoldable pub is_ready : Progress → Bool
is_ready not_ready = false
is_ready _ = true

unfoldable pub after_drain : Progress × Writer → (Writer → Progress × Writer) → Progress × Writer
after_drain (done, w) k = k w
after_drain (not_ready, w) k = (not_ready, w)
after_drain (error, w) k = (error, w)

-- `reset`: one poll each, the results let go.
unfoldable pub reset : ℕ → Writer → Writer
unfolding end_with is_ready shutdown_inner
reset code w =
    let (p, w') = poll_drain (end_with (reset_head code) w) in
    if is_ready p then (shutdown_inner w').1 else w'

-- One poll of the future of `reset_flushed`. Polled again it queues nothing more, as `ended` is set.
unfoldable pub reset_flushed : ℕ → Writer → Progress × Writer
unfolding end_with after_drain shutdown_inner
reset_flushed code w = after_drain (poll_drain (end_with (reset_head code) w)) shutdown_inner

-- What `poll_write` returns.
pub data Write : Type 0 where
  wrote : ℕ → Write
  broken_pipe : Write
  write_pending : Write
  write_error : Write

-- Once a record is queued only an error of the second drain is passed on.
unfoldable pub queued : ℕ → Progress × Writer → Write × Writer
queued n (error, w) = (write_error, w)
queued n (_, w) = (wrote n, w)

unfoldable pub write_drained : List ℕ → Progress × Writer → Write × Writer
unfolding queued
write_drained payload (not_ready, w) = (write_pending, w)
write_drained payload (error, w) = (write_error, w)
write_drained payload (done, w) =
    let n = min (length payload) max_data in
    if n == 0
    then (wrote 0, w)
    else queued n (poll_drain (record w { buf = w.buf ++ (data_head n ++ take n payload) }))

unfoldable pub poll_write : List ℕ → Writer → Write × Writer
unfolding write_drained
poll_write payload w = if w.ended then (broken_pipe, w) else write_drained payload (poll_drain w)

unfoldable pub flush_writer : Writer → Progress × Writer
unfolding flush_inner
flush_writer w = let (p, inner) = flush_inner w.inner in (p, record w { inner = inner })

unfoldable pub poll_flush : Writer → Progress × Writer
unfolding after_drain flush_writer
poll_flush w = after_drain (poll_drain w) flush_writer

unfoldable pub poll_shutdown : Writer → Progress × Writer
unfolding end_with after_drain shutdown_inner
poll_shutdown w = after_drain (poll_drain (end_with (finish_tag ∷ []) w)) shutdown_inner
