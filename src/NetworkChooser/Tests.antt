-- ===== src/NetworkChooser/Tests.antt =====
-- Choices between a Wi-Fi and a cellular network.
use libcmm.Prelude.{
  ℕ, ◌≤◌, ◌<◌, ◌≡◌, refl, ◌⊎◌, inl, inr, true, false, none, some, List, [], ◌∷◌, arith, All,
}
use libcmm.NetworkChooser.{
  NetInterface, Pair, matches_type, net_type_wifi, has_label, label_wifi_only, label_threeg_only,
  label_small, label_large, fallback_allowed, has_network_restriction, Estimates, ulong_max,
  LabelMatcher, bandwidth_of, rtt_of, choose_networks,
}
use libcmm.NetworkChooser.Laws.{
  Among, round, large_takes_bandwidth, small_takes_latency, wifi_only_outcome,
  no_bandwidth_is_stale,
}

abbrev iface : ℕ → ℕ → ℕ → ℕ → NetInterface
iface ip bw rtt net_type = record {
  ip_addr = ip;
  bandwidth_down = bw;
  bandwidth_up = bw;
  rtt = rtt;
  net_type = net_type;
}

abbrev server : NetInterface
server = iface 9 1000 0 0

abbrev wifi : Pair
wifi = (iface 1 500 20 1, server)

abbrev cellular : Pair
cellular = (iface 2 100 80 2, server)

abbrev dead : Pair
dead = (iface 3 0 80 2, server)

abbrev no_estimates : Estimates
no_estimates = record { bandwidth_up = λ p. none; latency = λ p. none }

abbrev last_round : LabelMatcher
last_round = record {
  has_match = true;
  max_bw = 500;
  min_rtt = 20;
  has_wifi_match = true;
  has_threeg_match = false;
  max_bw_iface_pair = wifi;
  min_rtt_iface_pair = wifi;
  wifi_pair = wifi;
  threeg_pair = wifi;
}

abbrev both : List Pair
both = cellular ∷ wifi ∷ []

no_wifi_label : has_label 32 label_wifi_only ≡ false
unfolding has_label
no_wifi_label = refl

no_threeg_label : has_label 32 label_threeg_only ≡ false
unfolding has_label
no_threeg_label = refl

no_small_label : has_label 32 label_small ≡ false
unfolding has_label
no_small_label = refl

large_given : has_label 32 label_large ≡ true
unfolding has_label
large_given = refl

wifi_bandwidth : 0 < bandwidth_of no_estimates wifi
unfolding bandwidth_of
wifi_bandwidth = omega arith

large_takes_bandwidth_example :
    (p : Pair) × (choose_networks (round no_estimates last_round both) 32 ≡ some p)
    × Among p both
    × All (λ r. bandwidth_of no_estimates r ≤ bandwidth_of no_estimates p) both
large_takes_bandwidth_example =
    large_takes_bandwidth no_estimates last_round both 32 wifi no_wifi_label no_threeg_label
      no_small_label large_given (inr (inl refl)) wifi_bandwidth

no_wifi_label_small : has_label 16 label_wifi_only ≡ false
unfolding has_label
no_wifi_label_small = refl

no_threeg_label_small : has_label 16 label_threeg_only ≡ false
unfolding has_label
no_threeg_label_small = refl

small_given : has_label 16 label_small ≡ true
unfolding has_label
small_given = refl

wifi_latency : rtt_of no_estimates wifi < ulong_max
unfolding rtt_of
wifi_latency = omega arith

small_takes_latency_example :
    (p : Pair) × (choose_networks (round no_estimates last_round both) 16 ≡ some p)
    × Among p both
    × All (λ r. rtt_of no_estimates p ≤ rtt_of no_estimates r) both
small_takes_latency_example =
    small_takes_latency no_estimates last_round both 16 wifi no_wifi_label_small
      no_threeg_label_small small_given (inr (inl refl)) wifi_latency

-- Both network types, which `has_network_restriction` takes for no restriction.
abbrev any_network : ℕ
any_network = 0x30000

any_network_unrestricted : has_network_restriction any_network ≡ false
unfolding has_network_restriction
any_network_unrestricted = refl

any_network_wifi : has_label any_network label_wifi_only ≡ true
unfolding has_label
any_network_wifi = refl

any_network_strict : fallback_allowed any_network ≡ false
unfolding fallback_allowed has_label
any_network_strict = refl

wifi_only_outcome_example :
    ((p : Pair) × (choose_networks (round no_estimates last_round (cellular ∷ [])) any_network
        ≡ some p)
      × Among p (cellular ∷ [])
      × (matches_type net_type_wifi p ≡ true))
    ⊎ ((choose_networks (round no_estimates last_round (cellular ∷ [])) any_network ≡ none)
        × All (λ p. matches_type net_type_wifi p ≡ false) (cellular ∷ []))
wifi_only_outcome_example =
    wifi_only_outcome no_estimates last_round (cellular ∷ []) any_network any_network_wifi
      any_network_strict

dead_bandwidth : (q : Pair) → Among q (dead ∷ []) → bandwidth_of no_estimates q ≡ 0
unfolding bandwidth_of
dead_bandwidth q (inl e) = ground arith
dead_bandwidth q (inr a) = absurd a

no_bandwidth_is_stale_example :
    choose_networks (round no_estimates last_round (dead ∷ [])) 32 ≡ some wifi
no_bandwidth_is_stale_example =
    no_bandwidth_is_stale no_estimates last_round dead [] 32 no_wifi_label no_threeg_label
      no_small_label large_given dead_bandwidth
