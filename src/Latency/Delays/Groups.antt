-- ===== src/Latency/Delays/Groups.antt =====
-- network_latency.py: an address is in the group of its delay.
use faultstorm.Prelude.{
  ◌≡◌, true, false, List, [], ◌∷◌, ◌++◌, Option, none, some, ℤ, All, All-append, arith, lookup,
  insert, keys, contains, IsNodup, list_eq, nat_eq, int_eq, ◌==◌, Option-cases, inl, inr,
  Bool-cases,
}
use faultstorm.Prelude.Dict.{Dict}
use faultstorm.Text.{Text}
use faultstorm.Latency.Delays.{group_ips}

-- Every address of a group has the delay of the group.
abbrev pub IsRight : Dict Text ℤ → ℤ × List Text → Type 0
IsRight dests g = All (λ ip. lookup ip dests ≡ some g.0) g.1

All-lookup :
    (dests : Dict Text ℤ) (ms : ℤ) (groups : Dict ℤ (List Text)) (ips : List Text)
    → All (IsRight dests) groups
    → lookup ms groups ≡ some ips
    → IsRight dests (ms, ips)
unfolding lookup
All-lookup dests ms [] ips h e = cc
All-lookup dests ms ((j, js) ∷ groups) ips h e = elim (Bool-cases (j == ms)) [
  | inl p ↦
      let same : j ≡ ms = (int_eq.beq_iff j ms).0 p in
      let found : js ≡ ips = ground arith in rw (← same, ← found) h.0
  | inr p ↦ All-lookup dests ms groups ips h.1 (ground arith)
]

All-insert :
    (dests : Dict Text ℤ) (ms : ℤ) (groups : Dict ℤ (List Text)) (ips : List Text)
    → All (IsRight dests) groups
    → IsRight dests (ms, ips)
    → All (IsRight dests) (insert ms ips groups)
unfolding insert
All-insert dests ms [] ips h r = (r, tt)
All-insert dests ms ((j, js) ∷ groups) ips h r = elim (Bool-cases (j == ms)) [
  | inl p ↦ let same : j ≡ ms = (int_eq.beq_iff j ms).0 p in rw p (rw same r, h.1)
  | inr p ↦ rw p (h.0, All-insert dests ms groups ips h.1 r)
]

abbrev pub old_ips : Option (List Text) → List Text
old_ips none = []
old_ips (some ips) = ips

group_lem :
    (dests : Dict Text ℤ) (more : Dict Text ℤ) (groups : Dict ℤ (List Text))
    → All (λ d. lookup d.0 dests ≡ some d.1) more
    → All (IsRight dests) groups
    → All (IsRight dests) (group_ips more groups)
unfolding group_ips
group_lem dests [] groups h r = r
group_lem dests ((ip, ms) ∷ more) groups h r = elim (Option-cases (lookup ms groups)) [
  | inl e ↦ rw e (
      group_lem dests more (insert ms (ip ∷ []) groups) h.1
        (All-insert dests ms groups (ip ∷ []) r (h.0, tt)))
  | inr (ips, e) ↦ rw e (
      group_lem dests more (insert ms (ips ++ ip ∷ []) groups) h.1 (
        All-insert dests ms groups (ips ++ ip ∷ []) r (
          All-append (λ j. lookup j dests ≡ some ms) ips (ip ∷ [])
            (All-lookup dests ms groups ips r e) (h.0, tt))))
]

lookup-contains :
    (k : Text) (v : ℤ) (d : Dict Text ℤ) → lookup k d ≡ some v → contains (keys d) k ≡ true
unfolding lookup
lookup-contains k v [] h = cc
lookup-contains k v ((j, w) ∷ d) h = ground (arith, lookup-contains k v d)

lookup-cons :
    (ip : Text) (ms : ℤ) (seen dests : Dict Text ℤ)
    → contains (keys dests) ip ≡ false
    → All (λ d. lookup d.0 dests ≡ some d.1) seen
    → All (λ d. lookup d.0 ((ip, ms) ∷ dests) ≡ some d.1) seen
unfolding lookup
lookup-cons ip ms [] dests n h = tt
lookup-cons ip ms ((jp, m) ∷ seen) dests n h = (
  ground (arith, h.0, lookup-contains jp m dests, (list_eq ⦃e = nat_eq⦄).beq_iff ip jp),
  lookup-cons ip ms seen dests n h.1,
)

-- In a dict each key is once, so every entry is what its key finds.
entries_lem :
    (dests : Dict Text ℤ) → IsNodup (keys dests) → All (λ d. lookup d.0 dests ≡ some d.1) dests
unfolding lookup
entries_lem [] n = tt
entries_lem ((ip, ms) ∷ dests) n = (
  ground (arith, (list_eq ⦃e = nat_eq⦄).beq_iff ip ip),
  lookup-cons ip ms dests dests n.0 (entries_lem dests n.1),
)

pub group_ips-IsRight :
    (dests : Dict Text ℤ) → IsNodup (keys dests) → All (IsRight dests) (group_ips dests [])
group_ips-IsRight dests n = group_lem dests dests [] (entries_lem dests n) tt
