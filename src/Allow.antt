-- ===== src/Allow.antt =====
-- crates/hawse-core/src/allow.rs: which visitors a service admits. The networks are those of the
-- crate `ipnet`, which comes in as a record of its operations.
pub mod Effective
use hawse.Base.{
  List, [], ◌∷◌, ◌++◌, Bool, true, false, ◌||◌, ◌&&◌, Option, none, some, map, if◌then◌else◌, ◌≡◌,
}
use hawse.Base.Net.{IpAddr, to_canonical}
use hawse.Base.Sort.{any, sort_unstable, dedup}

-- `IpNet`: `trunc` clears the host bits, `covers` is `contains` of a network, `holds` that of an
-- address, and `le` is its order.
pub record Nets : Type 1 where
  pub Net : Type 0
  pub same : Discrete Net
  pub trunc : Net → Net
  pub covers : Net → Net → Bool
  pub holds : Net → IpAddr → Bool
  pub le : Net → Net → Bool

module _ (n : Nets) where
  open n use {Net, same, trunc, covers, holds, le}

  -- `AllowList`: the list itself. Empty admits everyone.
  abbrev pub AllowList : Type 0
  AllowList = List Net

  unfoldable pub is_empty : List Net → Bool
  is_empty [] = true
  is_empty (a ∷ l) = false

  -- The closure of `filter_map`: the narrower of two networks that nest.
  unfoldable pub narrower : Net → List Net → List Net
  narrower a [] = []
  narrower a (b ∷ l) =
      let rest = narrower a l in
      if covers a b then b ∷ rest else if covers b a then a ∷ rest else rest

  -- `flat_map` over the client's networks.
  unfoldable pub overlaps : List Net → List Net → List Net
  overlaps [] ceiling = []
  overlaps (a ∷ client) ceiling = narrower a ceiling ++ overlaps client ceiling

  unfoldable pub intersect : List Net → List Net → Option AllowList
  intersect client ceiling =
      let both = dedup same (sort_unstable le (overlaps client ceiling)) in
      if is_empty both then none else some both

  unfoldable pub effective : List Net → List Net → Option AllowList
  effective client ceiling =
      let client' = map trunc client in
      let ceiling' = map trunc ceiling in
      if is_empty client'
      then some ceiling'
      else if is_empty ceiling'
      then some client'
      else intersect client' ceiling'

  unfoldable pub permits : AllowList → IpAddr → Bool
  permits l ip = is_empty l || any (λ net. holds net (to_canonical ip)) l

  -- What the code relies on of `ipnet`: a network and its truncation hold the same addresses; one
  -- that covers another holds all of its addresses; and two that share an address nest.
  pub record Laws : Type 0 where
    pub trunc_holds : (a : Net) (ip : IpAddr) → holds (trunc a) ip ≡ holds a ip
    pub covers_holds :
        (a b : Net) (ip : IpAddr) → covers a b ≡ true → holds b ip ≡ true → holds a ip ≡ true
    pub nest :
        (a b : Net) (ip : IpAddr)
        → holds a ip ≡ true
        → holds b ip ≡ true
        → (covers a b || covers b a) ≡ true
