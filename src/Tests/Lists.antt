-- ===== src/Tests/Lists.antt =====
-- The theorems on src/c/kernel/include/list.h at concrete lists: four heads at the addresses 1 to 4,
-- the nodes 5 and 6 in the first list, and 7 in none.
use rpi_kernel.Base.{◌≡◌, refl, List, [], ◌∷◌, arith, ◌==◌, ◌∈◌, if◌then◌else◌}
use rpi_kernel.Config.{Priority, idle, low, med, high, priority_key}
use rpi_kernel.Links.{Ptr, Links}
use rpi_kernel.Links.Ring.{IsRing, Returns}
use rpi_kernel.Links.Family.{Free, IsFamily, requeue, requeued, requeue_member}

abbrev links : Links
links = record {
  next = λ p. if p == 1 then 5 else if p == 5 then 6 else if p == 6 then 1 else p;
  prev = λ p. if p == 1 then 6 else if p == 5 then 1 else if p == 6 then 5 else p;
}

abbrev address : Priority → Ptr
address idle = 1
address low = 2
address med = 3
address high = 4

abbrev lists : Priority → List Ptr
lists idle = 5 ∷ 6 ∷ []
lists low = []
lists med = []
lists high = []

two_nodes-IsRing : IsRing links 1 (5 ∷ 6 ∷ [])
two_nodes-IsRing = record {
  valid = refl;
  distinct = (refl, (refl, (refl, tt)));
  linked = (refl, refl, (refl, refl, (refl, refl)));
}

seven-IsRing : IsRing links 7 []
seven-IsRing = record { valid = refl; distinct = (refl, tt); linked = (refl, refl) }

lists-IsRing : (k : Priority) → IsRing links (address k) (lists k)
lists-IsRing idle = two_nodes-IsRing
lists-IsRing low = record { valid = refl; distinct = (refl, tt); linked = (refl, refl) }
lists-IsRing med = record { valid = refl; distinct = (refl, tt); linked = (refl, refl) }
lists-IsRing high = record { valid = refl; distinct = (refl, tt); linked = (refl, refl) }

-- The list of a priority that a node belongs to.
owner : Ptr → Priority
owner p = if p == 2 then low else if p == 3 then med else if p == 4 then high else idle

owner-address : (k : Priority) (p : Ptr) → p ∈ address k ∷ lists k → owner p ≡ k
unfolding owner
owner-address idle p m = ground arith
owner-address low p m = ground arith
owner-address med p m = ground arith
owner-address high p m = ground arith

links-IsFamily : IsFamily address lists links
links-IsFamily = record {
  ring = lists-IsRing;
  apart = λ k j ne p m. ground (arith, owner-address k p m, owner-address j p);
}

seven-Free : Free address lists 7
seven-Free idle = refl
seven-Free low = refl
seven-Free med = refl
seven-Free high = refl

requeue_member_example :
    Returns (IsFamily address (requeued address lists links 5 high)) (requeue 5 4 links)
requeue_member_example = requeue_member address lists links links-IsFamily 5 high idle refl
