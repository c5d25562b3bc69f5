-- ===== src/Udp/Steps.antt =====
-- What each step of a sender (crates/hawse-core/src/udp.rs) does to its books.
use hawse.Base.{
  ℕ, suc, ◌+◌, ◌^◌, ◌<◌, ◌≡◌, List, [], ◌∷◌, ◌++◌, true, Option, none, some, length, ltb, arith,
  Bool-cases, inl, inr, length-append, ap,
}
use hawse.Udp.{
  bump, count_bulk_full, count_socket, bulk_queue, TransportError, connection, no_datagrams,
  datagram_too_large, io, Route, Sender, try_send, after_send, note_eviction, recv_first, end_bulk,
}
use hawse.Udp.Events.{take_in, is_over, Accounted}

pub zero_add : (n : ℕ) → 0 + n ≡ n
zero_add n = omega arith

pub add_zero : (n : ℕ) → n + 0 ≡ n
add_zero n = omega arith

pub one_add : (n : ℕ) → 1 + n ≡ suc n
one_add n = omega arith

module _ (n gone seen : ℕ) (s : Sender) (taken : List (List ℕ))
    (a : Accounted n gone seen (s, taken)) (l : suc n < 2 ^ 64) where
  full-Accounted : Accounted (suc n) gone seen (record s { drops = count_bulk_full s.drops }, taken)
  full-Accounted = record {
    each = omega (arith, a.each, l);
    datagrams = a.datagrams;
    queued = a.queued;
    taken = a.taken;
    bounded = a.bounded;
    evictions = a.evictions;
  }

  pub socket-Accounted :
      Accounted (suc n) gone seen (record s { drops = count_socket s.drops }, taken)
  socket-Accounted = record {
    each = omega (arith, a.each, l);
    datagrams = a.datagrams;
    queued = a.queued;
    taken = a.taken;
    bounded = a.bounded;
    evictions = a.evictions;
  }

  queued-Accounted :
      (packet : List ℕ)
      → s.receiver ≡ true
      → length s.queue < bulk_queue
      → Accounted (suc n) gone seen (
        record s {
          queue = s.queue ++ packet ∷ [];
          sent = record s.sent { bulk = bump s.sent.bulk };
        },
        taken,
      )
  queued-Accounted packet r f =
      let longer : length (s.queue ++ packet ∷ []) ≡ length s.queue + 1 =
        length-append s.queue (packet ∷ []) in
      record {
        each = omega (arith, a.each, l);
        datagrams = a.datagrams;
        queued = λ h. omega (arith, a.each, a.queued r, longer, l);
        taken = omega (arith, a.each, a.taken, longer, l);
        bounded = omega (arith, longer, f);
        evictions = a.evictions;
      }

  pub try_send-Accounted :
      (packet : List ℕ) → Accounted (suc n) gone seen (try_send packet s, taken)
  unfolding try_send
  try_send-Accounted packet = elim (Bool-cases s.receiver) [
    | inl r ↦ elim (Bool-cases (ltb (length s.queue) bulk_queue)) [
      | inl f ↦ ground (queued-Accounted packet, arith)
      | inr f ↦ ground (full-Accounted, arith)
    ]
    | inr r ↦ ground (full-Accounted, arith)
  ]

  sent-Accounted :
      (packet : List ℕ)
      → Accounted (suc n) gone seen (
        record s {
          datagrams = s.datagrams ++ packet ∷ [];
          sent = record s.sent { datagram = bump s.sent.datagram };
        },
        taken,
      )
  sent-Accounted packet =
      let longer : length (s.datagrams ++ packet ∷ []) ≡ length s.datagrams + 1 =
        length-append s.datagrams (packet ∷ []) in
      record {
        each = omega (arith, a.each, l);
        datagrams = omega (arith, a.each, a.datagrams, longer, l);
        queued = a.queued;
        taken = a.taken;
        bounded = a.bounded;
        evictions = a.evictions;
      }

  lost-Accounted : Accounted (suc n) (suc gone) seen (s, taken)
  lost-Accounted = record {
    each = omega (arith, a.each);
    datagrams = a.datagrams;
    queued = a.queued;
    taken = a.taken;
    bounded = a.bounded;
    evictions = a.evictions;
  }

module _ (n gone seen : ℕ) (s : Sender) (taken : List (List ℕ))
    (a : Accounted n gone seen (s, taken)) where
  pub note_eviction-Accounted :
      (t : Route) (packet : List ℕ)
      → suc seen < 2 ^ 64
      → Accounted n gone (suc seen) (note_eviction t packet s, taken)
  unfolding note_eviction
  note_eviction-Accounted t packet l = elim (Bool-cases (ltb t.buffer_space (length packet))) [
    | inl e ↦ rw e record {
      each = a.each;
      datagrams = a.datagrams;
      queued = a.queued;
      taken = a.taken;
      bounded = a.bounded;
      evictions = omega (arith, a.evictions, l);
    }
    | inr e ↦ rw e record {
      each = a.each;
      datagrams = a.datagrams;
      queued = a.queued;
      taken = a.taken;
      bounded = a.bounded;
      evictions = omega (arith, a.evictions);
    }
  ]

  pub after_send-Accounted :
      (packet : List ℕ) (o : Option TransportError)
      → suc n < 2 ^ 64
      → Accounted (suc n) (is_over o + gone) seen (after_send packet o s, taken)
  unfolding after_send is_over
  after_send-Accounted packet none l =
      rw (zero_add gone) (sent-Accounted n gone seen s taken a l packet)
  after_send-Accounted packet (some no_datagrams) l =
      rw (zero_add gone) (try_send-Accounted n gone seen s taken a l packet)
  after_send-Accounted packet (some datagram_too_large) l =
      rw (zero_add gone) (try_send-Accounted n gone seen s taken a l packet)
  after_send-Accounted packet (some connection) l =
      rw (one_add gone) (lost-Accounted n gone seen s taken a l)
  after_send-Accounted packet (some io) l =
      rw (one_add gone) (lost-Accounted n gone seen s taken a l)

  pub weaken : Accounted n gone (suc seen) (s, taken)
  weaken = record {
    each = a.each;
    datagrams = a.datagrams;
    queued = a.queued;
    taken = a.taken;
    bounded = a.bounded;
    evictions = omega (arith, a.evictions);
  }

  pub end_bulk-Accounted : Accounted n gone seen (end_bulk s, taken)
  unfolding end_bulk
  end_bulk-Accounted = record {
    each = a.each;
    datagrams = a.datagrams;
    queued = λ h. absurd (cc);
    taken = omega (arith, a.taken);
    bounded = omega arith;
    evictions = a.evictions;
  }

  pub recv_first-Accounted :
      (q : List (List ℕ))
      → s.queue ≡ q
      → Accounted n gone seen ((recv_first q s).1, take_in (recv_first q s).0 taken)
  unfolding recv_first take_in
  recv_first-Accounted [] e = a
  recv_first-Accounted (packet ∷ q) e =
      let longer : length (taken ++ packet ∷ []) ≡ length taken + 1 =
        length-append taken (packet ∷ []) in
      let was : length s.queue ≡ suc (length q) = ap length e in
      record {
        each = a.each;
        datagrams = a.datagrams;
        queued = λ h. omega (arith, a.queued h, longer, was);
        taken = omega (arith, a.taken, longer, was);
        bounded = omega (arith, a.bounded, was);
        evictions = a.evictions;
      }
