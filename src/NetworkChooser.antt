-- ===== src/NetworkChooser.antt =====
-- The choice of a network: net_interface.h, net_interface.cpp, libcmm_net_restriction.h,
-- libcmm_net_restriction.cpp, network_chooser_impl.h, network_chooser_impl.cpp and
-- `get_iface_pair_locked_internal` of csocket_mapping.cpp. What NetStats has measured of a pair of
-- interfaces is an argument. Round-trip times are below 2 ^ 53, where `iface_RTT`, which goes through
-- floating point, is exact.
mod Laws
mod Tests
use Prim.Native.Nat.{bit_and}
use libcmm.Prelude.{
  ℕ, ◌+◌, ◌-◌, ◌*◌, ◌%◌, ◌^◌, min, Bool, true, false, not, ◌||◌, ◌&&◌, Option, none, some, List, [],
  ◌∷◌, ◌++◌, ltb, ◌==◌, if◌then◌else◌,
}

pub record NetInterface : Type 0 where
  pub ip_addr : ℕ
  pub bandwidth_down : ℕ
  pub bandwidth_up : ℕ
  pub rtt : ℕ
  pub net_type : ℕ

abbrev pub Pair : Type 0
Pair = NetInterface × NetInterface

-- From the local sender's perspective.
abbrev pub iface_bandwidth : Pair → ℕ
iface_bandwidth (l, r) = min l.bandwidth_up r.bandwidth_down

abbrev pub iface_rtt : Pair → ℕ
iface_rtt (l, r) = l.rtt + r.rtt

abbrev pub net_type_wifi : ℕ
net_type_wifi = 0x1

abbrev pub net_type_threeg : ℕ
net_type_threeg = 0x2

unfoldable pub matches_type : ℕ → Pair → Bool
matches_type t (l, r) =
    ((l.net_type == t) && (r.net_type == t))
    || ((l.net_type == t) && (r.net_type == 0))
    || ((l.net_type == 0) && (r.net_type == t))
    || ((l.net_type == 0) && (r.net_type == 0))

unfoldable pub get_network_type : Pair → ℕ
unfolding matches_type
get_network_type p =
    if matches_type net_type_wifi p
    then net_type_wifi
    else if matches_type net_type_threeg p
    then net_type_threeg
    else 0

abbrev pub label_ondemand : ℕ
label_ondemand = 0x4

abbrev pub label_background : ℕ
label_background = 0x8

abbrev pub label_small : ℕ
label_small = 0x10

abbrev pub label_large : ℕ
label_large = 0x20

abbrev pub label_wifi_only : ℕ
label_wifi_only = 0x10000

abbrev pub label_threeg_only : ℕ
label_threeg_only = 0x20000

abbrev pub label_fallback_allowed : ℕ
label_fallback_allowed = 0x100000

abbrev pub all_network_restrictions : ℕ
all_network_restrictions = 0x30000

unfoldable pub has_label : ℕ → ℕ → Bool
has_label labels l = not (bit_and labels l == 0)

unfoldable pub fallback_allowed : ℕ → Bool
unfolding has_label
fallback_allowed labels = has_label labels label_fallback_allowed

unfoldable pub has_network_restriction : ℕ → Bool
has_network_restriction labels =
    let restriction_labels = bit_and labels all_network_restrictions in
    not (restriction_labels == 0) && not (restriction_labels == all_network_restrictions)

-- `network_fits_restriction` of a network type
unfoldable pub type_fits_restriction : ℕ → ℕ → Bool
unfolding fallback_allowed has_label
type_fits_restriction t labels =
    if fallback_allowed labels
    then true
    else let restriction_labels = bit_and labels all_network_restrictions in
      (restriction_labels == 0) || has_label restriction_labels (t * 2 ^ 16)

-- `network_fits_restriction` of a pair of interfaces
unfoldable pub pair_fits_restriction : ℕ → Pair → Bool
unfolding has_network_restriction fallback_allowed type_fits_restriction matches_type
pair_fits_restriction labels p =
    not (has_network_restriction labels)
    || fallback_allowed labels
    || (type_fits_restriction net_type_wifi labels && matches_type net_type_wifi p)
    || (type_fits_restriction net_type_threeg labels && matches_type net_type_threeg p)

-- What NetStats estimates, if it has enough history.
pub record Estimates : Type 0 where
  pub bandwidth_up : Pair → Option ℕ
  pub latency : Pair → Option ℕ

abbrev pub ulong_max : ℕ
ulong_max = 2 ^ 64 - 1

pub record LabelMatcher : Type 0 where
  pub has_match : Bool
  pub max_bw : ℕ
  pub min_rtt : ℕ
  pub has_wifi_match : Bool
  pub has_threeg_match : Bool
  pub max_bw_iface_pair : Pair
  pub min_rtt_iface_pair : Pair
  pub wifi_pair : Pair
  pub threeg_pair : Pair

unfoldable pub reset : LabelMatcher → LabelMatcher
reset m = record m {
  max_bw = 0;
  min_rtt = ulong_max;
  has_match = false;
  has_wifi_match = false;
  has_threeg_match = false;
}

module _ (stats : Estimates) where
  unfoldable pub bandwidth_of : Pair → ℕ
  bandwidth_of p =
      if iface_bandwidth p == 0
      then 0
      else elim (stats.bandwidth_up p) [ none ↦ iface_bandwidth p | some bw ↦ bw ]

  unfoldable pub rtt_of : Pair → ℕ
  rtt_of p = elim (stats.latency p) [ none ↦ iface_rtt p | some latency ↦ latency * 2 % 2 ^ 64 ]

  -- `LabelMatcher::consider`
  unfoldable pub consider : LabelMatcher → Pair → LabelMatcher
  unfolding bandwidth_of rtt_of matches_type
  consider m p =
      let bw = bandwidth_of p in
      let rtt = rtt_of p in
      record {
        has_match = true;
        max_bw = if ltb m.max_bw bw then bw else m.max_bw;
        max_bw_iface_pair = if ltb m.max_bw bw then p else m.max_bw_iface_pair;
        min_rtt = if ltb rtt m.min_rtt then rtt else m.min_rtt;
        min_rtt_iface_pair = if ltb rtt m.min_rtt then p else m.min_rtt_iface_pair;
        has_wifi_match = matches_type net_type_wifi p || m.has_wifi_match;
        wifi_pair = if matches_type net_type_wifi p then p else m.wifi_pair;
        has_threeg_match = matches_type net_type_threeg p || m.has_threeg_match;
        threeg_pair = if matches_type net_type_threeg p then p else m.threeg_pair;
      }

  unfoldable pub consider_all : LabelMatcher → List Pair → LabelMatcher
  unfolding consider
  consider_all m [] = m
  consider_all m (p ∷ ps) = consider_all (consider m p) ps

-- The labels are a network type: that network, or the other one if it may stand in.
restricted : Bool → Pair → Bool → Pair → Bool → Option Pair
restricted has_it it has_other other fallback =
    if has_it then some it else if fallback && has_other then some other else none

-- The labels that are no restriction.
by_demand : LabelMatcher → ℕ → Pair
unfolding has_label
by_demand m labels =
    if has_label labels label_small && ltb m.min_rtt ulong_max
    then m.min_rtt_iface_pair
    else if has_label labels label_large
    then m.max_bw_iface_pair
    else if has_label labels label_ondemand
        || not (has_label labels (label_ondemand + label_background))
    then m.min_rtt_iface_pair
    else m.max_bw_iface_pair

-- `LabelMatcher::choose_networks`
unfoldable pub choose_networks : LabelMatcher → ℕ → Option Pair
unfolding restricted by_demand fallback_allowed has_label
choose_networks m labels =
    if not m.has_match
    then none
    else if has_label labels label_wifi_only
    then restricted m.has_wifi_match m.wifi_pair m.has_threeg_match m.threeg_pair
        (fallback_allowed labels)
    else if has_label labels label_threeg_only
    then restricted m.has_threeg_match m.threeg_pair m.has_wifi_match m.wifi_pair
        (fallback_allowed labels)
    else some (by_demand m labels)

-- PreferredNetwork, the chooser for one type.
pub record PreferredNetwork : Type 0 where
  pub preferred_type : ℕ
  pub has_match : Bool
  pub pair : Pair

unfoldable pub consider_preferred : PreferredNetwork → Pair → PreferredNetwork
unfolding matches_type
consider_preferred c p =
    if not c.has_match || matches_type c.preferred_type p
    then record c { has_match = true; pair = p }
    else c

unfoldable pub choose_preferred : PreferredNetwork → Option Pair
choose_preferred c = if c.has_match then some c.pair else none

-- The pairs of a local and a remote interface that the labels admit, in the order of the two loops.
unfoldable pub pairs_with : ℕ → NetInterface → List NetInterface → List Pair
unfolding type_fits_restriction get_network_type
pairs_with labels i [] = []
pairs_with labels i (j ∷ js) =
    let rest = pairs_with labels i js in
    if type_fits_restriction (get_network_type (i, j)) labels then (i, j) ∷ rest else rest

unfoldable pub admitted_pairs : ℕ → List NetInterface → List NetInterface → List Pair
unfolding pairs_with
admitted_pairs labels [] remotes = []
admitted_pairs labels (i ∷ is) remotes =
    pairs_with labels i remotes ++ admitted_pairs labels is remotes

is_none_at_all : List Pair → Bool
is_none_at_all [] = true
is_none_at_all (p ∷ ps) = false

-- `get_iface_pair_locked_internal` with a LabelMatcher, for a multisocket that is not on loopback.
unfoldable pub get_iface_pair :
    Estimates
    → ℕ
    → List NetInterface
    → List NetInterface
    → LabelMatcher
    → LabelMatcher × Option Pair
unfolding admitted_pairs consider_all reset choose_networks is_none_at_all
get_iface_pair stats labels locals remotes m =
    let ps = admitted_pairs labels locals remotes in
    let m' = consider_all stats (reset m) ps in
    (m', if is_none_at_all ps then none else choose_networks m' labels)
