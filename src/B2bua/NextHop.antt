-- ===== src/B2bua/NextHop.antt =====
-- The address of the next hop (`getNHAddr` of cmd/b2bua_radius/b2broute.go).
use go_b2bua.Prelude.{
  Bool, true, false, not, ◌&&◌, ◌||◌, Option, none, some, List, [], ◌∷◌, ◌≡◌, refl, inl, inr, ◌⊎◌,
  ◌++◌, ap,
}
use go_b2bua.Sip.{HostPort}
use go_b2bua.B2bua.Route.{
  Ip, AinfoItem, host_port, B2bRoute, first_addr, family_addr, addr_or, get_nh_addr,
}

-- all addresses are of the other family
unfoldable pub NoneOf : Bool → List AinfoItem → Type 0
NoneOf is_ip4 [] = Unit
NoneOf is_ip4 (it ∷ rest) = (it.ip.is_ip4 ≡ not is_ip4) × NoneOf is_ip4 rest

-- the first address of the family stands between these
abbrev pub FirstOf : Bool → List AinfoItem → Option HostPort → Type 0
FirstOf is_ip4 items found =
    (before : List AinfoItem) × (chosen : AinfoItem) × (after : List AinfoItem) × (items
      ≡ before ++ (chosen ∷ after))
    × NoneOf is_ip4 before
    × (chosen.ip.is_ip4 ≡ is_ip4)
    × (found ≡ some (host_port chosen))

same_family :
    (a b : Bool)
    → ((b ≡ a) × ((a && b) || (not a && not b) ≡ true))
      ⊎ ((b ≡ not a) × ((a && b) || (not a && not b) ≡ false))
same_family true true = inl (refl, refl)
same_family true false = inr (refl, refl)
same_family false true = inr (refl, refl)
same_family false false = inl (refl, refl)

later_first :
    (is_ip4 : Bool) (it : AinfoItem) (rest : List AinfoItem)
    → it.ip.is_ip4 ≡ not is_ip4
    → FirstOf is_ip4 rest (family_addr is_ip4 rest)
      ⊎ (NoneOf is_ip4 rest × (family_addr is_ip4 rest ≡ none))
    → FirstOf is_ip4 (it ∷ rest) (family_addr is_ip4 rest)
      ⊎ (NoneOf is_ip4 (it ∷ rest) × (family_addr is_ip4 rest ≡ none))
unfolding NoneOf
later_first is_ip4 it rest o (inl f) =
    inl (it ∷ f.0, f.1, f.2, ap (λ xs. it ∷ xs) f.3, (o, f.4), f.5, f.6)
later_first is_ip4 it rest o (inr n) = inr ((o, n.0), n.1)

family_addr-First :
    (is_ip4 : Bool) (items : List AinfoItem)
    → FirstOf is_ip4 items (family_addr is_ip4 items)
      ⊎ (NoneOf is_ip4 items × (family_addr is_ip4 items ≡ none))
unfolding family_addr NoneOf
family_addr-First is_ip4 [] = inr (tt, refl)
family_addr-First is_ip4 (it ∷ rest) = elim (same_family is_ip4 it.ip.is_ip4) [
  | inl p ↦ rw p.1 (inl ([], it, rest, refl, tt, p.0, refl))
  | inr p ↦ rw p.1 (later_first is_ip4 it rest p.0 (family_addr-First is_ip4 rest))
]

addr_or_first :
    (is_ip4 : Bool) (items : List AinfoItem) (found : Option HostPort)
    → FirstOf is_ip4 items found ⊎ (NoneOf is_ip4 items × (found ≡ none))
    → FirstOf is_ip4 items (addr_or found (first_addr items))
      ⊎ (NoneOf is_ip4 items × (addr_or found (first_addr items) ≡ first_addr items))
addr_or_first is_ip4 items found (inl f) =
    inl (f.0, f.1, f.2, f.3, f.4, f.5, ap (λ o. addr_or o (first_addr items)) f.6)
addr_or_first is_ip4 items found (inr n) = inr (n.0, ap (λ o. addr_or o (first_addr items)) n.1)

-- When the address that the call came from parses, the leg of a route goes to the first address of
-- the route that is of the same family, and to the route's first address only if all of them are
-- of the other family.
pub get_nh_addr-First :
    (src_ip : Ip) (r : B2bRoute)
    → FirstOf src_ip.is_ip4 r.ainfo (get_nh_addr (some src_ip) r)
      ⊎ (NoneOf src_ip.is_ip4 r.ainfo × (get_nh_addr (some src_ip) r ≡ first_addr r.ainfo))
unfolding get_nh_addr
get_nh_addr-First src_ip r =
    addr_or_first src_ip.is_ip4 r.ainfo (family_addr src_ip.is_ip4 r.ainfo)
      (family_addr-First src_ip.is_ip4 r.ainfo)
