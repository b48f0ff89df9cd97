-- ===== src/ReceiverLattice/Serving.antt =====
-- The invariant of the receiver's lattice with its queue of IROBs to be read.
use libcmm.Prelude.{
  ℕ, ◌≡◌, sym, ◌∙◌, ◌⊎◌, inl, inr, Bool, true, false, ◌||◌, Option, none, some, [], ◌∷◌, arith,
  ◌==◌, is_some, All,
}
use libcmm.IdSet.{IdSet}
use libcmm.Irob.{is_ready}
use libcmm.Lattice.{Lattice, find_locked, is_past}
use libcmm.Lattice.Every.{Every}
use libcmm.Lattice.Tracks.{Tracks}
use libcmm.Scheduling.Task.{no_time}
use libcmm.Scheduling.PrioritySet.{PrioritySet}
use libcmm.Scheduling.Order.{At}
use libcmm.ReceiverIrob.{Receiving, ReceiverIrob, is_complete}
use libcmm.ReceiverLattice.{ReceiverLattice}
use libcmm.ReceiverLattice.Sound.{Sound}

abbrev pub has_task : PrioritySet → ℕ → Bool
has_task [] j = false
has_task (t ∷ ts) j = (t.id == j) || has_task ts j

abbrev pub nobody : ℕ → Bool
nobody j = false

abbrev pub either : (ℕ → Bool) → (ℕ → Bool) → ℕ → Bool
either f g j = f j || g j

abbrev pub only : ℕ → ℕ → Bool
only id j = id == j

-- In the middle of a call the IROBs that pass one of the tests are excepted: from the check of their
-- counts, from being released as soon as they can be read, and from having a task once released.
pub record ServesBut (a : ℕ → IdSet) (unchecked late out : ℕ → Bool) (r : ReceiverLattice)
    : Type 0 where
  pub tracks : Tracks r.irobs a
  pub sound : Every Sound r.irobs
  pub checked :
      (j : ℕ) (p : ReceiverIrob)
      → find_locked r.irobs j ≡ some p
      → unchecked j ≡ false
      → is_some (is_complete p) ≡ true
  pub prompt :
      (j : ℕ) (p : ReceiverIrob)
      → find_locked r.irobs j ≡ some p
      → late j ≡ false
      → is_complete p ≡ some true
      → is_ready p ≡ true
      → p.ext.released ≡ true
  pub queued :
      (j : ℕ) (p : ReceiverIrob)
      → find_locked r.irobs j ≡ some p
      → out j ≡ false
      → p.ext.released ≡ true
      → (r.partially_read_irob ≡ some j) ⊎ (has_task r.ready_irobs j ≡ true)
  pub tasked :
      (j : ℕ) (p : ReceiverIrob)
      → has_task r.ready_irobs j ≡ true
      → find_locked r.irobs j ≡ some p
      → p.ext.released ≡ true
  pub known :
      (j : ℕ)
      → has_task r.ready_irobs j ≡ true
      → find_locked r.irobs j ≡ none
      → is_past r.irobs j ≡ true
  pub partial :
      (j : ℕ)
      → r.partially_read_irob ≡ some j
      → (p : ReceiverIrob) × (find_locked r.irobs j ≡ some p) × (p.ext.released ≡ true)
  pub level : All (At no_time) r.ready_irobs

abbrev pub Serves : (ℕ → IdSet) → ReceiverLattice → Type 0
Serves a r = ServesBut a nobody nobody nobody r

-- What an IROB of the later lattice was before: the same as far as the two tests say, or not there.
abbrev pub Was : Lattice Receiving → Bool → Bool → ℕ → ReceiverIrob → Type 0
Was l fed later j q =
    ((p : ReceiverIrob) × (find_locked l j ≡ some p)
      × (q.ext.released ≡ p.ext.released)
      × (fed ≡ false → is_complete q ≡ is_complete p)
      × (later ≡ false → is_ready q ≡ is_ready p))
    ⊎ ((find_locked l j ≡ none)
        × (is_past l j ≡ false)
        × (q.ext.released ≡ false)
        × (fed ≡ false → is_complete q ≡ some false))

pub record Moves (l l' : Lattice Receiving) (fed later : ℕ → Bool) : Type 0 where
  pub back : (j : ℕ) (q : ReceiverIrob) → find_locked l' j ≡ some q → Was l (fed j) (later j) j q
  pub gone : (j : ℕ) → find_locked l' j ≡ none → (find_locked l j ≡ none) ⊎ (is_past l' j ≡ true)
  pub past : (j : ℕ) → is_past l j ≡ true → is_past l' j ≡ true

abbrev pub Held : Lattice Receiving → Option ℕ → Type 0
Held l o =
    (j : ℕ) → o ≡ some j → (p : ReceiverIrob) × (find_locked l j ≡ some p) × (p.ext.released ≡ true)

module _ (a a' : ℕ → IdSet) (u w o fed later : ℕ → Bool) (r : ReceiverLattice)
    (l' : Lattice Receiving) where
  -- A change of the lattice alone.
  pub Moves-ServesBut :
      ServesBut a u w o r
      → Tracks l' a'
      → Every Sound l'
      → Moves r.irobs l' fed later
      → Held l' r.partially_read_irob
      → ServesBut a' (either u fed) (either w (either fed later)) o (record r { irobs = l' })
  Moves-ServesBut s t sound m held = record {
    tracks = t;
    sound = sound;
    checked = λ j q e out. elim (m.back j q e) [
      | inl (p, ep, rel, same, ready) ↦ ground (arith, same, s.checked j p ep)
      | inr (free, open_, rel, same) ↦ ground (arith, same)
    ];
    prompt = λ j q e out done ready. elim (m.back j q e) [
      | inl (p, ep, rel, same, ready') ↦ ground (arith, same, ready', s.prompt j p ep)
      | inr (free, open_, rel, same) ↦ absurd (ground (arith, same))
    ];
    queued = λ j q e out rel. elim (m.back j q e) [
      | inl (p, ep, rel', same, ready') ↦ s.queued j p ep out (sym rel' ∙ rel)
      | inr (free, open_, rel', same) ↦ absurd (ground arith)
    ];
    tasked = λ j q has e. elim (m.back j q e) [
      | inl (p, ep, rel', same, ready') ↦ rel' ∙ s.tasked j p has ep
      | inr (free, open_, rel', same) ↦ absurd (ground (arith, s.known j has free))
    ];
    known =
        λ j has e. elim (m.gone j e) [ inl free ↦ m.past j (s.known j has free) | inr past ↦ past ];
    partial = held;
    level = s.level;
  }
