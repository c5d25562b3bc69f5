-- ===== src/Server/Session/Keeps.antt =====
-- A bind keeps the order of a session.
use hawse.Base.{ℕ, ◌≡◌, sym, ◌∙◌, Bool, true, Option, none, some, arith, subst}
use hawse.Base.Net.{IpAddr}
use hawse.Allow.{Nets}
use hawse.Proto.Msg.{
  Wanted, ServerMessage, bound, bind_failed, shutdown, welcome, denied, ask, answer,
}
use hawse.Proto.Port.{Port}
use hawse.Server.Open.Opening.{Wished}
use hawse.Server.Open.Dynamic.{Alike}
use hawse.Server.Policy.{allows}
use hawse.Server.Ports.{PortAllocator}
use hawse.Server.Ports.Walk
use hawse.Server.Session.{Session, Event, enter, tell, is_some, bind}
use hawse.Server.Session.Bind.{Unchanged, Entered, Outcome, bind-Outcome}
use hawse.Server.Session.Sound.{Granted, IsValid, enter-IsValid, enter-Granted}

pub tell-IsValid : {Net : Type 0} (e : Event) (s : Session Net) → IsValid s → IsValid (tell e s)
unfolding tell
tell-IsValid e s v = record {
  allocator = v.allocator;
  bounded = v.bounded;
  served = v.served;
  keys = v.keys;
  one = v.one;
  given = v.given;
  stopped = v.stopped;
  held = v.held;
  apart = v.apart;
}

Alike-IsValid :
    {Net : Type 0} (s : Session Net) (a : PortAllocator)
    → IsValid s
    → Alike s.ports a
    → Walk.IsValid a
    → IsValid (record s { ports = a })
Alike-IsValid s a v h ok = record {
  allocator = ok;
  bounded = v.bounded;
  served = v.served;
  keys = v.keys;
  one = v.one;
  given = v.given;
  stopped = v.stopped;
  held = λ i t x. h t.port ∙ v.held i t x;
  apart = v.apart;
}

Unchanged-IsValid : {Net : Type 0} (s s' : Session Net) → IsValid s → Unchanged s s' → IsValid s'
Unchanged-IsValid s s' v (e, h, ok) = subst IsValid (sym e) (Alike-IsValid s s'.ports v h ok)

Wished-allows :
    {Net : Type 0} (s : Session Net) (w : Wanted Net) (wish : Option ℕ) (p : Port)
    → Wished s.grant w.kind wish s.ports p
    → is_some wish ≡ true
    → allows s.grant p ≡ true
unfolding is_some
Wished-allows s w none p h e = absurd (ground arith)
Wished-allows s w (some x) p h e = h.1

Entered-IsValid :
    (n : Nets) (host : IpAddr → Port → Bool) (w : Wanted n.Net) (number : ℕ) (s s' : Session n.Net)
    → IsValid s
    → Entered n host w number s s'
    → IsValid s'
Entered-IsValid n host w number s s' v
      (p, allow, num, e, name, new, wish, out, ok, h, valid, l, made, same) =
    subst IsValid (sym same) (tell-IsValid _ _ (enter-IsValid w allow p s s'.ports v valid l out h))

Entered-Granted :
    (n : Nets) (host : IpAddr → Port → Bool) (w : Wanted n.Net) (number : ℕ) (s s' : Session n.Net)
    → IsValid s
    → Granted s
    → Entered n host w number s s'
    → Granted s'
unfolding tell enter
Entered-Granted n host w number s s' v g
      (p, allow, num, e, name, new, wish, out, ok, h, valid, l, made, same) =
    subst Granted (sym same)
      (enter-Granted w allow p s s'.ports v g (Wished-allows s w w.port p wish))

Unchanged-Granted : {Net : Type 0} (s s' : Session Net) → Granted s → Unchanged s s' → Granted s'
Unchanged-Granted s s' g (e, h, ok) = subst Granted (sym e) g

-- Whatever the answer, the session is in order after it.
abbrev pub After :
    {Net : Type 0} → (Session Net → Type 0) → Option (ServerMessage × Session Net) → Type 0
After P none = ⊥
After P (some (m, s)) = P s

Outcome-IsValid :
    (n : Nets) (host : IpAddr → Port → Bool) (w : Wanted n.Net) (s : Session n.Net)
    (r : Option (ServerMessage × Session n.Net))
    → IsValid s
    → Outcome n host w s r
    → After IsValid r
Outcome-IsValid n host w s none v o = o
Outcome-IsValid n host w s (some (bound service id port address, s')) v o =
    Entered-IsValid n host w port s s' v o.3
Outcome-IsValid n host w s (some (bind_failed service reason, s')) v o =
    Unchanged-IsValid s s' v o.2
Outcome-IsValid n host w s (some (shutdown text, s')) v o = Unchanged-IsValid s s' v o.1
Outcome-IsValid n host w s (some (welcome _ _, s')) v o = absurd o
Outcome-IsValid n host w s (some (denied _ _, s')) v o = absurd o
Outcome-IsValid n host w s (some (ask _, s')) v o = absurd o
Outcome-IsValid n host w s (some (answer _, s')) v o = absurd o

Outcome-Granted :
    (n : Nets) (host : IpAddr → Port → Bool) (w : Wanted n.Net) (s : Session n.Net)
    (r : Option (ServerMessage × Session n.Net))
    → IsValid s
    → Granted s
    → Outcome n host w s r
    → After Granted r
Outcome-Granted n host w s none v g o = o
Outcome-Granted n host w s (some (bound service id port address, s')) v g o =
    Entered-Granted n host w port s s' v g o.3
Outcome-Granted n host w s (some (bind_failed service reason, s')) v g o =
    Unchanged-Granted s s' g o.2
Outcome-Granted n host w s (some (shutdown text, s')) v g o = Unchanged-Granted s s' g o.1
Outcome-Granted n host w s (some (welcome _ _, s')) v g o = absurd o
Outcome-Granted n host w s (some (denied _ _, s')) v g o = absurd o
Outcome-Granted n host w s (some (ask _, s')) v g o = absurd o
Outcome-Granted n host w s (some (answer _, s')) v g o = absurd o

-- A bind ends and keeps the order: no two services share a name, an id or a task, every port served is
-- held, and no two tasks have one port.
pub bind-IsValid :
    (n : Nets) (host : IpAddr → Port → Bool) (w : Wanted n.Net) (s : Session n.Net)
    → IsValid s
    → After IsValid (bind n host w s)
bind-IsValid n host w s v =
    Outcome-IsValid n host w s _ v (bind-Outcome n host w s v.allocator v.bounded)

-- A bind ends, and where each service on a port it asked for had the grant of it, so it is after.
pub bind-Granted :
    (n : Nets) (host : IpAddr → Port → Bool) (w : Wanted n.Net) (s : Session n.Net)
    → IsValid s
    → Granted s
    → After Granted (bind n host w s)
bind-Granted n host w s v g =
    Outcome-Granted n host w s _ v g (bind-Outcome n host w s v.allocator v.bounded)
