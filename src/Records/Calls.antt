-- ===== src/Records/Calls.antt =====
-- Each call of `RecordWriter`: what it adds to the stream.
use hawse.Base.{
  ℕ, ◌+◌, ◌^◌, ◌<◌, ◌≤◌, ◌≡◌, refl, sym, ◌∙◌, ◌⊎◌, inl, inr, List, [], ◌∷◌, ◌++◌, true, false, some,
  length, length-append, length-take, take, min, ◌==◌, if◌then◌else◌, arith, Bool-cases,
}
use mathlib.Core.List.{append-nil, append_assoc}
use hawse.Proto.Record.{data_head, reset_head, finish_tag, max_data, max_head}
use hawse.Records.Reader.{Reading, collecting, finished, reset_by}
use hawse.Records.Writer.{
  Accept, Progress, done, not_ready, error, Writer, new, poll_drain, Write, wrote, broken_pipe,
  write_pending, write_error, poll_write, write_drained, queued, end_with, poll_shutdown,
  poll_flush, reset_flushed, after_drain, shutdown_inner, is_done, flush_writer,
}
use hawse.Records.Wire.{
  Says, Says-trans, data_record, finish_record, reset_record, on_wire, Moves, poll_drain-Moves,
}

-- A writer whose stream so far says `pl` and leaves a reader in `s`. While it has not ended, the
-- reader waits for a header, and at most one record is queued.
pub record Carries (w : Writer) (pl : List ℕ) (s : Reading) : Type 0 where
  pub says : Says (collecting []) (on_wire w) pl s
  pub going : w.ended ≡ false → s ≡ collecting []
  pub one_record : w.ended ≡ false → length w.buf ≤ 3 + max_data
  pub bounded : length w.buf ≤ 3 + max_data + max_head

pub new-Carries : (inner : List Accept) → Carries (new inner) [] (collecting [])
new-Carries inner = record {
  says = λ rest. (refl, refl);
  going = λ _. refl;
  one_record = λ _. omega arith;
  bounded = omega arith;
}

Carries-Moves :
    (w : Writer) (pl : List ℕ) (s : Reading) (r : Progress × Writer)
    → Carries w pl s
    → Moves w r
    → Carries (r.1) pl s
Carries-Moves w pl s r c m = record {
  says = rw m.kept c.says;
  going = λ e. c.going (sym m.same_end ∙ e);
  one_record = λ e. omega (arith, m.shorter, c.one_record (sym m.same_end ∙ e));
  bounded = omega (arith, m.shorter, c.bounded);
}

-- The bytes of the caller's data that are part of the stream after a call with this result. An
-- error may come before the record was queued, or after.
abbrev pub Accepted : List ℕ → Write → List ℕ → Type 0
Accepted bs (wrote n) x = (n ≡ min (length bs) max_data) × (x ≡ take n bs)
Accepted bs broken_pipe x = x ≡ []
Accepted bs write_pending x = x ≡ []
Accepted bs write_error x = (x ≡ []) ⊎ (x ≡ take (min (length bs) max_data) bs)

abbrev pub Appends : List ℕ → List ℕ → Reading → Write × Writer → Type 0
Appends bs pl s r = (x : List ℕ) × Carries (r.1) (pl ++ x) s × Accepted bs (r.0) x

Carries-same : {w : Writer} {s : Reading} (pl : List ℕ) → Carries w pl s → Carries w (pl ++ []) s
Carries-same pl c = rw (append-nil pl) c

queue_record :
    (bs pl : List ℕ) (w : Writer)
    → Carries w pl (collecting [])
    → w.buf ≡ []
    → 0 < length bs
    → length bs ≤ max_data
    → Carries (record w { buf = w.buf ++ (data_head (length bs) ++ bs) }) (pl ++ bs) (collecting [])
unfolding data_head
queue_record bs pl w c e pos h = record {
  says = rw (← append_assoc w.sent w.buf (data_head (length bs) ++ bs)) (
      Says-trans (collecting []) (on_wire w) pl (collecting []) (data_head (length bs) ++ bs) bs
        (collecting []) c.says (data_record bs pos h));
  going = λ _. refl;
  one_record = λ _. rw e (omega (arith, length-append (data_head (length bs)) bs));
  bounded = rw e (omega (arith, length-append (data_head (length bs)) bs));
}

queued-Appends :
    (bs pl : List ℕ) (w : Writer) (r : Progress × Writer)
    → Carries w (pl ++ take (min (length bs) max_data) bs) (collecting [])
    → Moves w r
    → Appends bs pl (collecting []) (queued (min (length bs) max_data) r)
unfolding queued
queued-Appends bs pl w (done, w') c m = (_, Carries-Moves w _ _ (done, w') c m, (refl, refl))
queued-Appends bs pl w (not_ready, w') c m =
    (_, Carries-Moves w _ _ (not_ready, w') c m, (refl, refl))
queued-Appends bs pl w (error, w') c m = (_, Carries-Moves w _ _ (error, w') c m, inr refl)

write_drained-Appends :
    (bs pl : List ℕ) (w : Writer) (r : Progress × Writer)
    → Carries w pl (collecting [])
    → Moves w r
    → Appends bs pl (collecting []) (write_drained bs r)
unfolding write_drained
write_drained-Appends bs pl w (not_ready, w') c m =
    ([], Carries-same pl (Carries-Moves w pl _ (not_ready, w') c m), refl)
write_drained-Appends bs pl w (error, w') c m =
    ([], Carries-same pl (Carries-Moves w pl _ (error, w') c m), inl refl)
write_drained-Appends bs pl w (done, w') c m =
    let n = min (length bs) max_data in
    let c' = Carries-Moves w pl (collecting []) (done, w') c m in
    elim (Bool-cases (n == 0)) [
      | inl none_left ↦ rw none_left ([], Carries-same pl c', (ground arith, refl))
      | inr some_left ↦ rw some_left (
          let len : length (take n bs) ≡ n = omega (arith, length-take n bs) in
          let q =
            queue_record (take n bs) pl w' c' (m.emptied refl) (ground (arith, len))
              (omega arith) in
          let w2 : Writer = record w' { buf = w'.buf ++ (data_head n ++ take n bs) } in
          queued-Appends bs pl w2 (poll_drain w2) (rw len at q) (poll_drain-Moves w2))
    ]

-- A write adds to the stream one record of the first bytes of the data, as many as it reports, and
-- nothing where it is not ready or the stream has ended; whatever the stream below takes.
pub poll_write-Appends :
    (bs : List ℕ) (w : Writer) (pl : List ℕ) (s : Reading)
    → Carries w pl s
    → Appends bs pl s (poll_write bs w)
unfolding poll_write
poll_write-Appends bs w pl s c = elim (Bool-cases w.ended) [
  | inl over ↦ simp over ([], Carries-same pl c, refl)
  | inr still ↦ simp still (
      rw (c.going still) (
        write_drained-Appends bs pl w (poll_drain w) (rw (c.going still) at c)
          (poll_drain-Moves w)))
]

end_with-Carries :
    (last : List ℕ) (t : Reading) (w : Writer) (pl : List ℕ) (s : Reading)
    → Says (collecting []) last [] t
    → length last ≤ max_head
    → Carries w pl s
    → Carries (end_with last w) pl (if w.ended then s else t)
      × ((end_with last w).ended ≡ true)
      × (on_wire (end_with last w) ≡ on_wire w ++ (if w.ended then [] else last))
unfolding end_with
end_with-Carries last t w pl s says short c = elim (Bool-cases w.ended) [
  | inl over ↦ simp over (c, refl, sym (append-nil (on_wire w)))
  | inr still ↦
      let before = rw (c.going still) at c.says in
      simp still (
        record {
          says =
              rw (← append_assoc w.sent w.buf last, ← append-nil pl)
                (Says-trans (collecting []) (on_wire w) pl (collecting []) last [] t before says);
          going = λ e. absurd (cc);
          one_record = λ e. absurd (cc);
          bounded = omega (arith, length-append w.buf last, c.one_record still);
        },
        refl,
        sym (append_assoc w.sent w.buf last),
      )
]

-- A call on the stream below that takes no bytes.
Quiet : (Writer → Progress × Writer) → Type 0
Quiet k =
    (v : Writer) → (on_wire (k v).1 ≡ on_wire v) × ((k v).1.ended ≡ v.ended) × ((k v).1.buf ≡ v.buf)

flush_writer-Quiet : Quiet flush_writer
unfolding Quiet flush_writer
flush_writer-Quiet v = (refl, refl, refl)

shutdown_inner-Quiet : Quiet shutdown_inner
unfolding Quiet shutdown_inner
shutdown_inner-Quiet v = (refl, refl, refl)

after_drain-Moves :
    (k : Writer → Progress × Writer) (w : Writer) (r : Progress × Writer)
    → Quiet k
    → Moves w r
    → Moves w (after_drain r k)
unfolding after_drain Quiet
after_drain-Moves k w (not_ready, v) q m = m
after_drain-Moves k w (error, v) q m = m
after_drain-Moves k w (done, v) q m = record {
  kept = (q v).0 ∙ m.kept;
  same_end = (q v).1 ∙ m.same_end;
  emptied = λ _. (q v).2 ∙ m.emptied refl;
  shorter = rw (q v).2 m.shorter;
}

-- A flush adds nothing to the stream, and one that is done leaves nothing queued.
pub poll_flush-Carries :
    (w : Writer) (pl : List ℕ) (s : Reading)
    → Carries w pl s
    → Carries (poll_flush w).1 pl s × ((poll_flush w).0 ≡ done → (poll_flush w).1.buf ≡ [])
unfolding poll_flush
poll_flush-Carries w pl s c =
    let m =
      after_drain-Moves flush_writer w (poll_drain w) flush_writer-Quiet (poll_drain-Moves w) in
    (Carries-Moves w pl s _ c m, m.emptied)

shutdown-closed :
    (w : Writer) (r : Progress × Writer)
    → Moves w r
    → (after_drain r shutdown_inner).0 ≡ done
    → (after_drain r shutdown_inner).1.closed ≡ true
unfolding after_drain shutdown_inner is_done
shutdown-closed w (not_ready, v) m h = absurd (ground arith)
shutdown-closed w (error, v) m h = absurd (ground arith)
shutdown-closed w (done, v) m h = rw h refl

-- What a call that ends the stream leaves: exactly `last` is put behind the bytes, and the stream ends
-- in `t`, unless it had ended before, where nothing is. Once it is done all is sent, and the stream
-- below is closed.
abbrev pub Ends : Writer → List ℕ → Reading → List ℕ → Reading → Progress × Writer → Type 0
Ends w pl s last t r =
    (on_wire (r.1) ≡ on_wire w ++ (if w.ended then [] else last))
    × Carries (r.1) pl (if w.ended then s else t)
    × ((r.1).ended ≡ true)
    × (r.0 ≡ done → ((r.1).buf ≡ []) × ((r.1).closed ≡ true))

end_and_shut-Ends :
    (last : List ℕ) (t : Reading) (w : Writer) (pl : List ℕ) (s : Reading)
    → Says (collecting []) last [] t
    → length last ≤ max_head
    → Carries w pl s
    → Ends w pl s last t (after_drain (poll_drain (end_with last w)) shutdown_inner)
end_and_shut-Ends last t w pl s says short c =
    let (c', over, wire) = end_with-Carries last t w pl s says short c in
    let v = end_with last w in
    let drained = poll_drain-Moves v in
    let m = after_drain-Moves shutdown_inner v (poll_drain v) shutdown_inner-Quiet drained in
    (
      m.kept ∙ wire,
      Carries-Moves v pl _ _ c' m,
      m.same_end ∙ over,
      λ h. (m.emptied h, shutdown-closed v (poll_drain v) drained h),
    )

-- A shutdown of a stream that has not ended puts one finish behind the records, and nothing behind one
-- that has, whatever the stream below takes. One that is done has sent everything and closed the
-- stream below.
pub poll_shutdown-Ends :
    (w : Writer) (pl : List ℕ) (s : Reading)
    → Carries w pl s
    → Ends w pl s (finish_tag ∷ []) finished (poll_shutdown w)
unfolding poll_shutdown
poll_shutdown-Ends w pl s c =
    end_and_shut-Ends (finish_tag ∷ []) finished w pl s finish_record (omega arith) c

-- A reset of a stream that has not ended puts one reset with its code behind the records, and nothing
-- behind one that has, whatever becomes of its polls. One that is done has sent everything and closed
-- the stream below.
pub reset_flushed-Ends :
    (code : ℕ) (w : Writer) (pl : List ℕ) (s : Reading)
    → code < 2 ^ 32
    → Carries w pl s
    → Ends w pl s (reset_head code) (reset_by (some code)) (reset_flushed code w)
unfolding reset_flushed
reset_flushed-Ends code w pl s h c =
    end_and_shut-Ends (reset_head code) (reset_by (some code)) w pl s (reset_record code h)
      (unfold reset_head in omega arith) c
