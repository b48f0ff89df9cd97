-- ===== src/Irob.antt =====
-- PendingIROB (pending_irob.h, pending_irob.cpp) and `irob_chunk_data` (cmm_socket_control.h). The
-- type argument holds what a subclass adds. Ids are natural numbers: the library draws them from a
-- counter that starts at 0.
pub mod Data
use Prim.Native.Nat.{bit_and}
use libcmm.Prelude.{
  ℕ, ◌≡◌, refl, ◌↔◌, Bool, true, false, not, ◌&&◌, Option, none, some, List, [], ◌∷◌, ◌++◌, arith,
  ◌==◌, if◌then◌else◌, length,
}
use libcmm.IdSet.{IdSet, has, insert, keep_if, erase, insert_all, has-nil, has-cons}

-- `datas` is the pointer `data`, `none` for NULL.
pub record Chunk : Type 0 where
  pub id : ℕ
  pub seqno : ℕ
  pub offset : ℕ
  pub datalen : ℕ
  pub datas : Option (List ℕ)

-- What the pointer of a chunk leads to.
abbrev pub bytes_of : Chunk → List ℕ
bytes_of c = elim (c.datas) [ none ↦ [] | some bs ↦ bs ]

pub record Irob (E : Type 0) : Type 0 where
  pub id : ℕ
  pub send_labels : ℕ
  pub deps : IdSet
  pub dependents : IdSet
  pub chunks : List Chunk
  pub anonymous : Bool
  pub complete : Bool
  pub placeholder : Bool
  pub status : ℕ
  pub ext : E

abbrev pub cmm_label_ondemand : ℕ
cmm_label_ondemand = 0x4

abbrev pub cmm_label_small : ℕ
cmm_label_small = 0x10

-- CMM_LABEL_WIFI_ONLY | CMM_LABEL_THREEG_ONLY
abbrev pub all_network_restrictions : ℕ
all_network_restrictions = 0x30000

has_label : ℕ → ℕ → Bool
has_label labels l = not (bit_and labels l == 0)

first_chunk : ℕ → List ℕ → Chunk
first_chunk id bytes = record {
  id = id;
  seqno = 0;
  offset = 0;
  datalen = length bytes;
  datas = some bytes;
}

deps_empty : IdSet → Bool
deps_empty [] = true
deps_empty (d ∷ ds) = false

module _ {E : Type 0} where
  -- The private constructor. It leaves `send_labels` unset; here it is 0.
  unfoldable pub placeholder_irob : ℕ → E → Irob E
  placeholder_irob id ext = record {
    id = id;
    send_labels = 0;
    deps = [];
    dependents = [];
    chunks = [];
    anonymous = false;
    complete = false;
    placeholder = true;
    status = 0;
    ext = ext;
  }

  -- The public constructor; `bytes` is `data` with its length `datalen`.
  unfoldable pub new_irob : ℕ → List ℕ → List ℕ → ℕ → E → Irob E
  unfolding first_chunk
  new_irob id deps bytes labels ext =
      let whole = not (length bytes == 0) in
      record {
        id = id;
        send_labels = labels;
        deps = insert_all [] deps;
        dependents = [];
        chunks = if whole then first_chunk id bytes ∷ [] else [];
        anonymous = whole;
        complete = whole;
        placeholder = false;
        status = 0;
        ext = ext;
      }

  -- `PendingIROB::add_chunk`
  unfoldable pub add_chunk : Irob E → Chunk → Irob E × Bool
  add_chunk p c =
      if p.complete then (p, false) else (record p { chunks = p.chunks ++ c ∷ [] }, true)

  unfoldable pub finish : Irob E → Irob E × Bool
  finish p = if p.complete then (p, false) else (record p { complete = true }, true)

  unfoldable pub add_dep : Irob E → ℕ → Irob E
  add_dep p id = record p { deps = insert id p.deps }

  unfoldable pub dep_satisfied : ℕ → Irob E → Irob E
  dep_satisfied id p = record p { deps = erase id p.deps }

  -- The loop erases the dependencies that pass the test.
  unfoldable pub remove_deps_if : (ℕ → Bool) → Irob E → Irob E
  remove_deps_if pred p = record p { deps = keep_if (λ d. not (pred d)) p.deps }

  unfoldable pub add_dependent : ℕ → Irob E → Irob E
  add_dependent id p = record p { dependents = insert id p.dependents }

  unfoldable pub depends_on : Irob E → ℕ → Bool
  depends_on p that = has p.deps that

  pub can_be_redundant : Irob E → Bool
  unfolding has_label
  can_be_redundant p =
      has_label p.send_labels cmm_label_ondemand
      && has_label p.send_labels cmm_label_small
      && (bit_and p.send_labels all_network_restrictions == 0)

  -- `PendingReceiverIROB::is_ready` (pending_receiver_irob.cpp)
  unfoldable pub is_ready : Irob E → Bool
  unfolding deps_empty
  is_ready p = not p.placeholder && deps_empty p.deps

  unfoldable pub add_chunks : (Irob E → Chunk → Irob E × Bool) → Irob E → List Chunk → Irob E
  add_chunks add p [] = p
  add_chunks add p (c ∷ cs) = add_chunks add (add p c).0 cs

  -- `PendingIROB::subsume`; the argument `add` is the virtual method `add_chunk`.
  unfoldable pub subsume : (Irob E → Chunk → Irob E × Bool) → Irob E → Irob E → Irob E
  unfolding add_chunks
  subsume add p other =
      record (add_chunks add (record p { dependents = insert_all p.dependents other.dependents })
        other.chunks) { complete = other.complete }

-- The virtual methods that the lattice calls, and what it relies on: the real IROB that takes a
-- placeholder's place stays itself and keeps the dependents of both.
pub record Virtuals (E : Type 0) : Type 0 where
  pub fresh : E
  pub absorb : Irob E → Irob E → Irob E
  pub absorb-id : (p other : Irob E) → (absorb p other).id ≡ p.id
  pub absorb-deps : (p other : Irob E) → (absorb p other).deps ≡ p.deps
  pub absorb-anonymous : (p other : Irob E) → (absorb p other).anonymous ≡ p.anonymous
  pub absorb-placeholder : (p other : Irob E) → (absorb p other).placeholder ≡ p.placeholder
  pub absorb-dependents :
      (p other : Irob E) → (absorb p other).dependents ≡ insert_all p.dependents other.dependents

-- What every `add_chunk` leaves alone.
pub record Keeps {E : Type 0} (p q : Irob E) : Type 0 where
  pub same_id : q.id ≡ p.id
  pub same_deps : q.deps ≡ p.deps
  pub same_dependents : q.dependents ≡ p.dependents
  pub same_anonymous : q.anonymous ≡ p.anonymous
  pub same_placeholder : q.placeholder ≡ p.placeholder

module _ {E : Type 0} (add : Irob E → Chunk → Irob E × Bool)
    (keeps : (p : Irob E) (c : Chunk) → Keeps p (add p c).0) where
  add_chunks-Keeps : (p : Irob E) (cs : List Chunk) → Keeps p (add_chunks add p cs)
  unfolding add_chunks
  add_chunks-Keeps p [] = ground arith
  add_chunks-Keeps p (c ∷ cs) = ground (arith, keeps p c, add_chunks-Keeps (add p c).0 cs)

  pub subsume-Keeps :
      (p other : Irob E)
      → Keeps
          (record p { dependents = insert_all p.dependents other.dependents })
          (subsume add p other)
  unfolding subsume
  subsume-Keeps p other = ground (
    arith,
    add_chunks-Keeps (record p { dependents = insert_all p.dependents other.dependents })
        other.chunks,
  )

pub add_chunk-Keeps : {E : Type 0} (p : Irob E) (c : Chunk) → Keeps p (add_chunk p c).0
unfolding add_chunk
add_chunk-Keeps p c = ground arith

-- An IROB is ready when it is real and no id is left among its dependencies.
pub is_ready_iff :
    {E : Type 0} (p : Irob E)
    → p.placeholder ≡ false
    → (is_ready p ≡ true) ↔ ((d : ℕ) → has p.deps d ≡ false)
unfolding is_ready deps_empty
is_ready_iff p real = on_deps p.deps refl
  where
    on_deps :
        (ds : IdSet)
        → ds ≡ p.deps
        → (not p.placeholder && deps_empty ds ≡ true) ↔ ((d : ℕ) → has ds d ≡ false)
    on_deps [] e = (λ h d. has-nil d, λ h. ground arith)
    on_deps (x ∷ xs) e =
        (λ h. absurd (ground arith), λ h. absurd (ground (arith, h x, has-cons x xs x)))
