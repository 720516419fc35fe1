-- ===== src/Latency/Manager/Recorded.antt =====
-- network_latency.py: what `_apply_node` records if all of its commands succeed.
use faultstorm.Prelude.{
  ℕ, suc, ◌≡◌, ◌∙◌, refl, Bool, true, false, ◌||◌, List, [], ◌∷◌, ◌++◌, Option, none, some, ℤ,
  Result, ok, arith, lookup, insert, lookup-insert, keys, contains, IsNodup, list_eq, nat_eq,
  int_eq, ◌==◌, Option-cases, Bool-cases, inl, inr, length, ◌+◌,
}
use faultstorm.Prelude.Dict.{Dict}
use faultstorm.Text.{Text, codes}
use faultstorm.Effects.{Env, World}
use faultstorm.Cluster.{exec_on_node}
use faultstorm.Latency.Bands.{BandInfo, attempt, succeeded, netem_argv, prio_argv}
use faultstorm.Latency.Delays.{group_ips, band_at}
use faultstorm.Latency.Delays.Groups.{old_ips, group_ips-IsRight}
use faultstorm.Latency.Manager.{
  NetworkLatencyManager, add_filters, add_bands, apply_bands, apply_node, get_bands_for_node,
}
use faultstorm.Latency.Manager.Applied.{IsWanted, add_bands-Fits, stored_lem}

abbrev has : {A : Type 0} → Option A → Bool
has none = false
has (some a) = true

-- The address is in some group.
abbrev grouped : Text → Dict ℤ (List Text) → Bool
grouped j [] = false
grouped j ((ms, ips) ∷ groups) = contains ips j || grouped j groups

contains-snoc :
    (ips : List Text) (ip j : Text) → contains (ips ++ ip ∷ []) j ≡ ((ip == j) || contains ips j)
contains-snoc [] ip j = refl
contains-snoc (i ∷ ips) ip j = ground (arith, contains-snoc ips ip j)

grouped-insert :
    (ms : ℤ) (ip j : Text) (groups : Dict ℤ (List Text)) (old : Option (List Text))
    → lookup ms groups ≡ old
    → grouped j (insert ms (old_ips old ++ ip ∷ []) groups) ≡ ((ip == j) || grouped j groups)
unfolding insert lookup
grouped-insert ms ip j [] old e = ground (arith, e)
grouped-insert ms ip j ((m, ips) ∷ groups) old e = elim (Bool-cases (m == ms)) [
  | inl p ↦
      let found : some ips ≡ old = ground (arith, e, p) in
      rw (p, ← found) (ground (arith, contains-snoc ips ip j))
  | inr p ↦
      let later : lookup ms groups ≡ old = ground (arith, e, p) in
      rw p (ground (arith, grouped-insert ms ip j groups old later))
]

grouped-group_ips :
    (more : Dict Text ℤ) (groups : Dict ℤ (List Text)) (j : Text)
    → grouped j (group_ips more groups) ≡ (has (lookup j more) || grouped j groups)
unfolding group_ips lookup
grouped-group_ips [] groups j = refl
grouped-group_ips ((ip, ms) ∷ more) groups j =
    grouped-group_ips more (insert ms (old_ips (lookup ms groups) ++ ip ∷ []) groups) j
    ∙ rw (grouped-insert ms ip j groups (lookup ms groups) refl) (ground arith)

-- A result that was not raised, and that has the addresses `new` besides the old ones.
record Grown (new : Text → Bool) (old : Dict Text BandInfo) (r : Result (Dict Text BandInfo))
    : Type 0 where
  found : Dict Text BandInfo
  returned : r ≡ ok found
  added : (j : Text) → has (lookup j found) ≡ (new j || has (lookup j old))

abbrev pub delay_in : Option BandInfo → Option ℤ
delay_in none = none
delay_in (some band) = some band.delay_ms

module _ (env : Env) (dests : Dict Text ℤ) (node : Text) where
  add_filters-Grown :
      (idx : ℕ) (band : BandInfo) (ips : List Text) (found : Dict Text BandInfo) (w : World)
      → Grown (contains ips) found (add_filters env node idx band ips found w).0
  unfolding add_filters
  add_filters-Grown idx band [] found w = record {
    found = found;
    returned = refl;
    added = λ j. refl;
  }
  add_filters-Grown idx band (ip ∷ ips) found w =
      let rest = add_filters-Grown idx band ips (insert ip band found) _ in
      record {
        found = rest.found;
        returned = rest.returned;
        added = λ j. ground (arith, rest.added j, lookup-insert ip j band found);
      }

  module _
      (works : (argv : List Text) (w : World)
        → succeeded env (exec_on_node env node argv 10 w).0 ≡ true) where
    add_bands-Grown :
        (idx : ℕ) (groups : Dict ℤ (List Text)) (found : Dict Text BandInfo) (w : World)
        → Grown (λ j. grouped j groups) found (add_bands env node idx groups found w).0
    unfolding add_bands attempt
    add_bands-Grown idx [] found w = record { found = found; returned = refl; added = λ j. refl }
    add_bands-Grown idx ((delay, ips) ∷ groups) found w =
        let band = band_at idx delay in
        let argv = netem_argv (codes "add") band.parent band.handle delay in
        let here = add_filters-Grown idx band ips found (attempt env node argv w).1 in
        let rest = add_bands-Grown (suc idx) groups here.found _ in
        rw (works argv w, here.returned)
          (record {
            found = rest.found;
            returned = rest.returned;
            added = λ j. ground (arith, rest.added j, here.added j);
          })

    delay_lem :
        (j : Text) (found : Dict Text BandInfo)
        → IsWanted dests found
        → has (lookup j found) ≡ has (lookup j dests)
        → delay_in (lookup j found) ≡ lookup j dests
    delay_lem j found wanted h = elim (Option-cases (lookup j found)) [
      | inl e ↦ ground (arith, e, Option-cases (lookup j dests))
      | inr (band, e) ↦ ground (arith, e, wanted j band e)
    ]

    bands_lem :
        (w : World)
        → IsNodup (keys dests)
        → (f : Dict Text BandInfo) × ((add_bands env node 2 (group_ips dests []) [] w).0 ≡ ok f)
          × ((j : Text) → delay_in (lookup j f) ≡ lookup j dests)
    unfolding lookup
    bands_lem w n =
        let all = add_bands-Grown 2 (group_ips dests []) [] w in
        let fits =
          add_bands-Fits env dests node 2 (group_ips dests []) [] w (group_ips-IsRight dests n)
            (λ ip band e. cc) in
        let same : fits.found ≡ all.found = ground arith in
        (
          all.found,
          all.returned,
          λ j.
              delay_lem j all.found (rw (← same) fits.wanted)
                (all.added j ∙ ground (arith, grouped-group_ips dests [] j)),
        )

    apply_bands-lem :
        (m : NetworkLatencyManager) (w : World)
        → IsNodup (keys dests)
        → ((apply_bands env true node dests m w).0 ≡ ok tt)
          × ((j : Text)
              → delay_in
                  (lookup j (get_bands_for_node env node (apply_bands env true node dests m w).1))
                ≡ lookup j dests)
    unfolding apply_bands get_bands_for_node
    apply_bands-lem m w n =
        let (f, e, same) = bands_lem w n in rw e (refl, rw (stored_lem env dests node m f) same)

    -- If all commands on a node succeed, `_apply_node` returns, and it records a band with the
    -- wanted delay for every address that has one, and nothing for any other address.
    pub apply_node-lookup :
        (m : NetworkLatencyManager) (w : World)
        → IsNodup (keys dests)
        → ((apply_node env node dests m w).0 ≡ ok tt)
          × ((j : Text)
              → delay_in (lookup j (get_bands_for_node env node (apply_node env node dests m w).1))
                ≡ lookup j dests)
    unfolding apply_node attempt
    apply_node-lookup m w n =
        rw (works (prio_argv (length (group_ips dests []) + 1)) w) (apply_bands-lem m _ n)
