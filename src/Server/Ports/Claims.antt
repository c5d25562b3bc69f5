-- ===== src/Server/Ports/Claims.antt =====
-- Claims, releases and reservations of single ports.
use hawse.Base.{ℕ, ◌≡◌, refl, true, false, none, some, arith, if◌then◌else◌, ite}
use hawse.Base.Sets.{has-delete}
use hawse.Proto.Port.{Port, tcp, udp, port_discrete}
use hawse.Proto.Msg.{in_use}
use hawse.Server.Ports.{PortAllocator, holds, claim, release, reserve}
use hawse.Server.Ports.Walk.{holds-take_port}

-- A claim is refused exactly where the port is held; it is held afterwards either way, and no other
-- port changes.
pub holds-claim :
    (p q : Port) (a : PortAllocator)
    → ((claim p a).0 ≡ (if holds a p then some in_use else none))
      × (holds (claim p a).1 q ≡ ite (port_discrete p q) true (holds a q))
unfolding claim
holds-claim p q a = ground (arith, holds-take_port a p q)

-- A release says whether the port was held, frees it, and leaves every other port.
pub holds-release :
    (p q : Port) (a : PortAllocator)
    → ((release p a).0 ≡ holds a p)
      × (holds (release p a).1 q ≡ ite (port_discrete p q) false (holds a q))
unfolding release holds
holds-release p q a = (refl, has-delete port_discrete p q a.in_use)

-- A reserved number is held for both protocols, and nothing else changes.
pub holds-reserve :
    (n : ℕ) (q : Port) (a : PortAllocator)
    → holds (reserve n a) q
      ≡ ite
          (port_discrete (record { number = n; kind = udp }) q)
          true
          (ite (port_discrete (record { number = n; kind = tcp }) q) true (holds a q))
unfolding reserve
holds-reserve n q a = rw (holds-take_port, holds-take_port)
