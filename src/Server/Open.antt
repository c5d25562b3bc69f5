-- ===== src/Server/Open.antt =====
-- `Session::open` of crates/hawse-core/src/server/session.rs, here `open_port`: a port that is granted, free and that
-- the host lets bind. The host comes in as a test of ports.
pub mod Free
pub mod Dynamic
pub mod Opening
use hawse.Base.{
  ℕ, zero, suc, ◌+◌, List, [], ◌∷◌, Bool, true, false, Option, none, some, if◌then◌else◌, ◌≡◌,
}
use hawse.Proto.Port.{Kind, Port, len}
use hawse.Proto.Msg.{BindFailure, not_granted, in_use}
use hawse.Server.Policy.{Grant, allows}
use hawse.Server.Ports.{PortAllocator, claim, claim_dynamic, release}

-- `spinning` is a loop that has not ended on its fuel.
pub data Opened : Type 0 where
  opened : Port → Opened
  failed : BindFailure → Opened
  spinning : Opened

-- The release of each refused port.
unfoldable pub release_all : List Port → PortAllocator → PortAllocator
release_all [] a = a
release_all (p ∷ l) a = release_all l (release p a).1

-- A turn of the walk for a dynamic port, over the ports refused so far; `rest` are the later turns,
-- with one more refused.
unfoldable pub walk_on :
    (Port → Bool)
    → List Port
    → Option Port × PortAllocator
    → (Port → Opened × PortAllocator)
    → Opened × PortAllocator
walk_on host refused (none, a) rest = (failed in_use, release_all refused a)
walk_on host refused (some p, a) rest = if host p then (opened p, release_all refused a) else rest p

unfoldable pub open_dynamic :
    (Port → Bool) → ℕ → Kind → List Port → PortAllocator → Opened × PortAllocator
open_dynamic host zero kind refused a = (spinning, a)
open_dynamic host (suc n) kind refused a =
    walk_on host refused (claim_dynamic kind a)
      λ p. open_dynamic host n kind (p ∷ refused) (claim_dynamic kind a).1

-- The one turn for a fixed port, after its grant.
unfoldable pub open_claimed :
    (Port → Bool) → Port → Option BindFailure × PortAllocator → Opened × PortAllocator
open_claimed host p (some reason, a) = (failed reason, a)
open_claimed host p (none, a) =
    if host p then (opened p, a) else (failed in_use, release_all (p ∷ []) a)

unfoldable pub open_fixed :
    {Net : Type 0} → Grant Net → (Port → Bool) → Port → PortAllocator → Opened × PortAllocator
open_fixed g host p a =
    if allows g p then open_claimed host p (claim p a) else (failed not_granted, a)

-- A turn more than the pool has numbers.
unfoldable pub open_port :
    {Net : Type 0}
    → Grant Net
    → (Port → Bool)
    → Kind
    → Option ℕ
    → PortAllocator
    → Opened × PortAllocator
open_port g host kind none a = open_dynamic host (suc (len a.span)) kind [] a
open_port g host kind (some number) a =
    open_fixed g host (record { number = number; kind = kind }) a
