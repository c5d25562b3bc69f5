-- ===== src/Traffic/Totals.antt =====
-- A service's counters are the sums over the calls made on its own meter.
use hawse.Base.{
  ℕ, zero, suc, ◌+◌, ◌^◌, ◌<◌, ◌≡◌, refl, sym, ap, subst, ◌∙◌, List, [], ◌∷◌, ite, arith, Bool,
  false,
}
use hawse.Base.Dict.{get, get-insert}
use hawse.Base.Text.{text_discrete}
use hawse.Traffic.{
  Counts, Meter, Call, opens, closes, carries_down, carries_up, datagram_down, datagram_up, drops,
  touch, add, toward_local, from_local, datagram_toward_local, datagram_from_local, note_dropped,
  open_one, close_one, apply, no_counts, Traffic, Event, on, takes, new, meter, take_moved, step,
  run, or_new,
}
use hawse.Traffic.Tally.{
  calls_on, Held, done, opening, closing, carrying_down, carrying_up, taking, giving, dropping,
  opened, closed, bytes_down, bytes_up, went_down, went_up, lost, total, Fits, Tallied,
}

apply_all : List Call → Counts → Counts
apply_all [] c = c
apply_all (x ∷ cs) c = apply_all cs ((apply x (record { counts = c; moving = false })).counts)

module _ (field : Counts → ℕ) (w : Call → ℕ)
    (each : (x : Call) (m : Meter)
      → field m.counts + w x < 2 ^ 64
      → field (apply x m).counts ≡ field m.counts + w x) where
  adds :
      (cs : List Call) (c : Counts)
      → field c + total w cs < 2 ^ 64
      → field (apply_all cs c) ≡ field c + total w cs
  unfolding total apply_all
  adds [] c h = omega arith
  adds (x ∷ cs) c h =
      let one = each x (record { counts = c; moving = false }) (omega arith) in
      omega (
        arith,
        one,
        adds cs ((apply x (record { counts = c; moving = false })).counts) (omega (arith, one)),
      )

  adds_all :
      (cs : List Call)
      → total w cs < 2 ^ 64
      → field no_counts ≡ 0
      → field (apply_all cs no_counts) ≡ total w cs
  adds_all cs h z = omega (arith, z, adds cs no_counts (omega (arith, z)))

moves-visitors :
    (x : Call) (m : Meter)
    → m.counts.visitors + opened x < 2 ^ 64
    → (apply x m).counts.visitors ≡ m.counts.visitors + opened x
unfolding apply opened open_one close_one toward_local from_local datagram_toward_local
    datagram_from_local note_dropped add touch
moves-visitors x m h = ground arith

moves-down :
    (x : Call) (m : Meter)
    → m.counts.down + bytes_down x < 2 ^ 64
    → (apply x m).counts.down ≡ m.counts.down + bytes_down x
unfolding apply bytes_down open_one close_one toward_local from_local datagram_toward_local
    datagram_from_local note_dropped add touch
moves-down x m h = ground arith

moves-up :
    (x : Call) (m : Meter)
    → m.counts.up + bytes_up x < 2 ^ 64
    → (apply x m).counts.up ≡ m.counts.up + bytes_up x
unfolding apply bytes_up open_one close_one toward_local from_local datagram_toward_local
    datagram_from_local note_dropped add touch
moves-up x m h = ground arith

moves-datagrams_down :
    (x : Call) (m : Meter)
    → m.counts.datagrams_down + went_down x < 2 ^ 64
    → (apply x m).counts.datagrams_down ≡ m.counts.datagrams_down + went_down x
unfolding apply went_down open_one close_one toward_local from_local datagram_toward_local
    datagram_from_local note_dropped add touch
moves-datagrams_down x m h = ground arith

moves-datagrams_up :
    (x : Call) (m : Meter)
    → m.counts.datagrams_up + went_up x < 2 ^ 64
    → (apply x m).counts.datagrams_up ≡ m.counts.datagrams_up + went_up x
unfolding apply went_up open_one close_one toward_local from_local datagram_toward_local
    datagram_from_local note_dropped add touch
moves-datagrams_up x m h = ground arith

moves-dropped :
    (x : Call) (m : Meter)
    → m.counts.dropped + lost x < 2 ^ 64
    → (apply x m).counts.dropped ≡ m.counts.dropped + lost x
unfolding apply lost open_one close_one toward_local from_local datagram_toward_local
    datagram_from_local note_dropped add touch
moves-dropped x m h = ground arith

same_counts :
    (x : Call) (c : Counts) (a b : Bool)
    → (apply x (record { counts = c; moving = a })).counts
      ≡ (apply x (record { counts = c; moving = b })).counts
unfolding apply open_one close_one toward_local from_local datagram_toward_local datagram_from_local
    note_dropped add touch
same_counts opens c a b = refl
same_counts closes c a b = refl
same_counts (carries_down n) c a b = refl
same_counts (carries_up n) c a b = refl
same_counts (datagram_down n) c a b = refl
same_counts (datagram_up n) c a b = refl
same_counts (drops n) c a b = refl

-- The guards held are the connections counted open.
open_adds :
    (n : ℕ) (cs : List Call) (c : Counts)
    → Held n cs
    → c.open_now ≡ n
    → n + total opened cs < 2 ^ 64
    → (apply_all cs c).open_now + total closed cs ≡ n + total opened cs
unfolding total apply_all opened closed apply open_one close_one toward_local from_local
    datagram_toward_local datagram_from_local note_dropped add touch
open_adds n [] c done e h = omega arith
open_adds n (opens ∷ cs) c (opening k) e h = omega (
  arith,
  open_adds (suc n) cs ((apply opens (record { counts = c; moving = false })).counts) k
      (omega arith) (omega arith),
)
open_adds zero (closes ∷ cs) c x e h = elim x [ ]
open_adds (suc n) (closes ∷ cs) c (closing k) e h = omega (
  arith,
  open_adds n cs ((apply closes (record { counts = c; moving = false })).counts) k (omega arith)
      (omega arith),
)
open_adds n (carries_down b ∷ cs) c (carrying_down k) e h = omega (
  arith,
  open_adds n cs ((apply (carries_down b) (record { counts = c; moving = false })).counts) k e
      (omega arith),
)
open_adds n (carries_up b ∷ cs) c (carrying_up k) e h = omega (
  arith,
  open_adds n cs ((apply (carries_up b) (record { counts = c; moving = false })).counts) k e
      (omega arith),
)
open_adds n (datagram_down b ∷ cs) c (taking k) e h = omega (
  arith,
  open_adds n cs ((apply (datagram_down b) (record { counts = c; moving = false })).counts) k e
      (omega arith),
)
open_adds n (datagram_up b ∷ cs) c (giving k) e h = omega (
  arith,
  open_adds n cs ((apply (datagram_up b) (record { counts = c; moving = false })).counts) k e
      (omega arith),
)
open_adds n (drops b ∷ cs) c (dropping k) e h = omega (
  arith,
  open_adds n cs ((apply (drops b) (record { counts = c; moving = false })).counts) k e
      (omega arith),
)

tallies : (cs : List Call) → Held 0 cs → Fits cs → Tallied cs (apply_all cs no_counts)
tallies cs k f = record {
  still_open = omega (arith, open_adds 0 cs no_counts k refl (omega (arith, f.opened_fit)));
  visitors_told = adds_all (λ c. c.visitors) opened moves-visitors cs f.opened_fit refl;
  down_told = adds_all (λ c. c.down) bytes_down moves-down cs f.down_fit refl;
  up_told = adds_all (λ c. c.up) bytes_up moves-up cs f.up_fit refl;
  datagrams_down_told =
      adds_all (λ c. c.datagrams_down) went_down moves-datagrams_down cs f.datagrams_down_fit refl;
  datagrams_up_told =
      adds_all (λ c. c.datagrams_up) went_up moves-datagrams_up cs f.datagrams_up_fit refl;
  lost_told = adds_all (λ c. c.dropped) lost moves-dropped cs f.lost_fit refl;
}

step-own :
    (j : List ℕ) (c : Call) (t : Traffic) (s : List ℕ)
    → (meter s (step (on j c) t)).counts
      ≡ ite (text_discrete j s) (apply c (meter j t)).counts (meter s t).counts
unfolding step meter or_new
step-own j c t s =
    let found = get-insert text_discrete s j (apply c (meter j t)).counts t.meters in
    ground (arith, found)

apply_all-ite :
    {j s : List ℕ} (d : Dec (j ≡ s)) (c : Call) (rest : List Call) (a b : Counts)
    → (j ≡ s → a ≡ (apply c (record { counts = b; moving = false })).counts)
    → apply_all rest (ite d a b) ≡ apply_all (ite d (c ∷ rest) rest) b
unfolding apply_all
apply_all-ite (yes e) c rest a b h = ap (apply_all rest) (h e)
apply_all-ite (no e) c rest a b h = refl

-- A service's meter is changed by the calls on it and by no other service's.
run-own :
    (es : List Event) (t : Traffic) (s : List ℕ)
    → (meter s (run es t)).counts ≡ apply_all (calls_on s es) (meter s t).counts
unfolding run step meter or_new take_moved calls_on apply_all
run-own [] t s = refl
run-own (takes ∷ es) t s = run-own es (step takes t) s
run-own (on j c ∷ es) t s =
    let own = run-own es (step (on j c) t) s in
    let same = same_counts c (meter s t).counts t.moving false in
    own
    ∙ ap (apply_all (calls_on s es)) (step-own j c t s)
    ∙ apply_all-ite (text_discrete j s) c (calls_on s es) (apply c (meter j t)).counts
        (meter s t).counts (λ e. rw e same)

-- Whatever the events of all services and the readings between them, from the start: the meter of a
-- service counts what was carried by the calls on it alone. Visitors, bytes and datagrams each way and
-- the datagrams lost are the sums over those calls, and the connections counted open with those closed
-- are the ones opened. This holds where connections are closed by the guards held, one each, and the
-- sums are below 2 ^ 64.
pub run-Tallied :
    (es : List Event) (s : List ℕ)
    → Held 0 (calls_on s es)
    → Fits (calls_on s es)
    → Tallied (calls_on s es) (meter s (run es new)).counts
unfolding meter or_new get
run-Tallied es s k f =
    subst (Tallied (calls_on s es)) (sym (run-own es new s)) (tallies (calls_on s es) k f)
