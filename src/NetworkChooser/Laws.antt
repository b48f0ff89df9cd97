-- ===== src/NetworkChooser/Laws.antt =====
-- What the choosers choose.
use libcmm.Prelude.{
  ℕ, ◌≤◌, ◌<◌, ◌≡◌, refl, sym, ap, ◌∙◌, subst, ◌⊎◌, inl, inr, true, false, none, some, List, [],
  ◌∷◌, arith, ltb, Bool-cases, All,
}
use libcmm.NetworkChooser.{
  Pair, matches_type, net_type_wifi, has_label, label_wifi_only, label_threeg_only, label_small,
  label_large, fallback_allowed, Estimates, ulong_max, LabelMatcher, reset, bandwidth_of, rtt_of,
  consider, consider_all, restricted, by_demand, choose_networks,
}

-- One of a list.
abbrev pub Among : Pair → List Pair → Type 0
Among p [] = ⊥
Among p (q ∷ qs) = (p ≡ q) ⊎ Among p qs

module _ (stats : Estimates) where
  -- After the pairs `ps`: the best of them, or of what was there before.
  pub record Best (m : LabelMatcher) (ps : List Pair) (n : LabelMatcher) : Type 0 where
    pub bw_from :
        (n.max_bw ≡ m.max_bw × (n.max_bw_iface_pair ≡ m.max_bw_iface_pair))
        ⊎ (Among n.max_bw_iface_pair ps × (n.max_bw ≡ bandwidth_of stats n.max_bw_iface_pair))
    pub bw_grows : m.max_bw ≤ n.max_bw
    pub bw_most : All (λ p. bandwidth_of stats p ≤ n.max_bw) ps
    pub rtt_from :
        (n.min_rtt ≡ m.min_rtt × (n.min_rtt_iface_pair ≡ m.min_rtt_iface_pair))
        ⊎ (Among n.min_rtt_iface_pair ps × (n.min_rtt ≡ rtt_of stats n.min_rtt_iface_pair))
    pub rtt_falls : n.min_rtt ≤ m.min_rtt
    pub rtt_least : All (λ p. n.min_rtt ≤ rtt_of stats p) ps

  consider_all-Best : (m : LabelMatcher) (ps : List Pair) → Best m ps (consider_all stats m ps)
  unfolding consider_all consider
  consider_all-Best m [] = record {
    bw_from = inl (refl, refl);
    bw_grows = omega arith;
    bw_most = tt;
    rtt_from = inl (refl, refl);
    rtt_falls = omega arith;
    rtt_least = tt;
  }
  consider_all-Best m (p ∷ ps) =
      let m1 = consider stats m p in
      let h = consider_all-Best m1 ps in
      let n = consider_all stats m1 ps in
      record {
        bw_from = elim h.bw_from [
          | inr (there, e) ↦ inr (inr there, e)
          | inl (e, f) ↦ elim (Bool-cases (ltb m.max_bw (bandwidth_of stats p))) [
            | inl more ↦ inr (inl (ground arith), ground arith)
            | inr less ↦ inl (ground arith, ground arith)
          ]
        ];
        bw_grows = ground (arith, h.bw_grows);
        bw_most = (ground (arith, h.bw_grows), h.bw_most);
        rtt_from = elim h.rtt_from [
          | inr (there, e) ↦ inr (inr there, e)
          | inl (e, f) ↦ elim (Bool-cases (ltb (rtt_of stats p) m.min_rtt)) [
            | inl less ↦ inr (inl (ground arith), ground arith)
            | inr more ↦ inl (ground arith, ground arith)
          ]
        ];
        rtt_falls = ground (arith, h.rtt_falls);
        rtt_least = (ground (arith, h.rtt_falls), h.rtt_least);
      }

  -- Whether a Wi-Fi network was considered, and the pair kept for it.
  pub record Wifi (m : LabelMatcher) (ps : List Pair) (n : LabelMatcher) : Type 0 where
    pub from :
        n.has_wifi_match ≡ true
        → ((m.has_wifi_match ≡ true) × (n.wifi_pair ≡ m.wifi_pair))
          ⊎ (Among n.wifi_pair ps × (matches_type net_type_wifi n.wifi_pair ≡ true))
    pub missing : n.has_wifi_match ≡ false → All (λ p. matches_type net_type_wifi p ≡ false) ps
    pub stays : m.has_wifi_match ≡ true → n.has_wifi_match ≡ true

  consider_all-Wifi : (m : LabelMatcher) (ps : List Pair) → Wifi m ps (consider_all stats m ps)
  unfolding consider_all consider
  consider_all-Wifi m [] = record { from = λ h. inl (h, refl); missing = λ h. tt; stays = λ h. h }
  consider_all-Wifi m (p ∷ ps) =
      let m1 = consider stats m p in
      let h = consider_all-Wifi m1 ps in
      record {
        from = λ e. elim (h.from e) [
          | inr (there, matches) ↦ inr (inr there, matches)
          | inl (had, same) ↦ elim (Bool-cases (matches_type net_type_wifi p)) [
            | inl matches ↦
                let here : (consider_all stats m1 ps).wifi_pair ≡ p = ground arith in
                inr (inl here, ap (matches_type net_type_wifi) here ∙ matches)
            | inr other ↦ inl (ground arith, ground arith)
          ]
        ];
        missing = λ e. elim (Bool-cases (matches_type net_type_wifi p)) [
          | inl matches ↦ absurd (ground (arith, h.stays))
          | inr other ↦ (other, h.missing e)
        ];
        stays = λ e. h.stays (ground arith);
      }

  consider_all-has_match :
      (m : LabelMatcher) (ps : List Pair)
      → m.has_match ≡ true
      → (consider_all stats m ps).has_match ≡ true
  unfolding consider_all consider
  consider_all-has_match m [] h = h
  consider_all-has_match m (p ∷ ps) h = consider_all-has_match (consider stats m p) ps refl

  one_considered :
      (m : LabelMatcher) (p : Pair) (ps : List Pair)
      → (consider_all stats m (p ∷ ps)).has_match ≡ true
  unfolding consider_all consider
  one_considered m p ps = consider_all-has_match (consider stats m p) ps refl

  -- A round: the chooser is reset, and all pairs are considered.
  abbrev pub round : LabelMatcher → List Pair → LabelMatcher
  round m ps = consider_all stats (reset m) ps

  All-at : (P : Pair → Type 0) (q : Pair) (ps : List Pair) → All P ps → Among q ps → P q
  All-at P q [] h a = absurd a
  All-at P q (p ∷ ps) h (inl e) = subst P (sym e) h.0
  All-at P q (p ∷ ps) h (inr a) = All-at P q ps h.1 a

  matched :
      (m : LabelMatcher) (q : Pair) (ps : List Pair) → Among q ps → (round m ps).has_match ≡ true
  matched m q [] a = absurd a
  matched m q (p ∷ ps) a = one_considered (reset m) p ps

  -- For labels with LARGE, without SMALL and without a network type, a round in which some pair has
  -- bandwidth chooses one of the pairs considered, and none of them has more bandwidth.
  pub large_takes_bandwidth :
      (m : LabelMatcher) (ps : List Pair) (labels : ℕ) (q : Pair)
      → has_label labels label_wifi_only ≡ false
      → has_label labels label_threeg_only ≡ false
      → has_label labels label_small ≡ false
      → has_label labels label_large ≡ true
      → Among q ps
      → 0 < bandwidth_of stats q
      → (p : Pair) × (choose_networks (round m ps) labels ≡ some p)
        × Among p ps
        × All (λ r. bandwidth_of stats r ≤ bandwidth_of stats p) ps
  unfolding choose_networks by_demand reset
  large_takes_bandwidth m ps labels q wifi threeg small large a some_bw =
      let n = round m ps in
      let b = consider_all-Best (reset m) ps in
      let at_least = All-at (λ r. bandwidth_of stats r ≤ n.max_bw) q ps b.bw_most a in
      let has = matched m q ps a in
      elim b.bw_from [
        | inl (e, f) ↦ absurd (ground arith)
        | inr (there, e) ↦ (
          n.max_bw_iface_pair,
          ground arith,
          there,
          subst (λ k. All (λ r. bandwidth_of stats r ≤ k) ps) e b.bw_most,
        )
      ]

  -- For labels with SMALL and without a network type, a round in which some pair has a round-trip time
  -- below the largest word chooses one of the pairs considered, and none of them has a shorter one.
  pub small_takes_latency :
      (m : LabelMatcher) (ps : List Pair) (labels : ℕ) (q : Pair)
      → has_label labels label_wifi_only ≡ false
      → has_label labels label_threeg_only ≡ false
      → has_label labels label_small ≡ true
      → Among q ps
      → rtt_of stats q < ulong_max
      → (p : Pair) × (choose_networks (round m ps) labels ≡ some p)
        × Among p ps
        × All (λ r. rtt_of stats p ≤ rtt_of stats r) ps
  unfolding choose_networks by_demand reset
  small_takes_latency m ps labels q wifi threeg small a known =
      let n = round m ps in
      let b = consider_all-Best (reset m) ps in
      let at_most = All-at (λ r. n.min_rtt ≤ rtt_of stats r) q ps b.rtt_least a in
      let has = matched m q ps a in
      elim b.rtt_from [
        | inl (e, f) ↦ absurd (ground arith)
        | inr (there, e) ↦ (
          n.min_rtt_iface_pair,
          ground arith,
          there,
          subst (λ k. All (λ r. k ≤ rtt_of stats r) ps) e b.rtt_least,
        )
      ]

  -- With the Wi-Fi label and no fallback allowed, whatever other labels there are, a round chooses a
  -- Wi-Fi network among the pairs considered, and none exactly if there is no Wi-Fi network among them.
  pub wifi_only_outcome :
      (m : LabelMatcher) (ps : List Pair) (labels : ℕ)
      → has_label labels label_wifi_only ≡ true
      → fallback_allowed labels ≡ false
      → ((p : Pair) × (choose_networks (round m ps) labels ≡ some p)
          × Among p ps
          × (matches_type net_type_wifi p ≡ true))
        ⊎ ((choose_networks (round m ps) labels ≡ none)
            × All (λ p. matches_type net_type_wifi p ≡ false) ps)
  unfolding choose_networks restricted reset
  wifi_only_outcome m ps labels only strict =
      let n = round m ps in
      let w = consider_all-Wifi (reset m) ps in
      elim (Bool-cases n.has_wifi_match) [
        | inr lacks ↦ inr (ground arith, w.missing lacks)
        | inl has ↦ elim (w.from has) [
          | inl (had, same) ↦ absurd (ground arith)
          | inr (there, matches) ↦
              inl (n.wifi_pair, ground (arith, matched m n.wifi_pair ps there), there, matches)
        ]
      ]

  stale :
      (m : LabelMatcher) (ps : List Pair)
      → ((q : Pair) → Among q ps → bandwidth_of stats q ≡ 0)
      → (consider_all stats m ps).max_bw_iface_pair ≡ m.max_bw_iface_pair
  unfolding consider_all consider
  stale m [] h = refl
  stale m (p ∷ ps) h =
      let here = h p (inl refl) in stale (consider stats m p) ps (λ q a. h q (inr a)) ∙ ground arith

  -- For labels with LARGE, without SMALL and without a network type, a round of pairs of which none has
  -- bandwidth chooses the pair that was left from the round before, whether it is there any more or not.
  pub no_bandwidth_is_stale :
      (m : LabelMatcher) (p : Pair) (ps : List Pair) (labels : ℕ)
      → has_label labels label_wifi_only ≡ false
      → has_label labels label_threeg_only ≡ false
      → has_label labels label_small ≡ false
      → has_label labels label_large ≡ true
      → ((q : Pair) → Among q (p ∷ ps) → bandwidth_of stats q ≡ 0)
      → choose_networks (round m (p ∷ ps)) labels ≡ some m.max_bw_iface_pair
  unfolding choose_networks by_demand reset
  no_bandwidth_is_stale m p ps labels wifi threeg small large none_has =
      let n = round m (p ∷ ps) in
      let has = one_considered (reset m) p ps in
      let kept : n.max_bw_iface_pair ≡ m.max_bw_iface_pair = stale (reset m) (p ∷ ps) none_has in
      ground arith
