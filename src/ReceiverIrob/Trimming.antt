-- ===== src/ReceiverIrob/Trimming.antt =====
-- What a removal of bytes leaves alone.
use libcmm.Prelude.{
  subst, ◌+◌, ℕ, ◌-◌, ◌≡◌, refl, inl, inr, min, true, some, List, [], ◌∷◌, arith, is_some,
  Bool-cases,
}
use libcmm.Irob.{Chunk}
use libcmm.ReceiverIrob.{
  ReceiverIrob, Cut, remove_chunks, cut_chunks, cut_partial, is_complete, all_chunks_complete,
  remove_bytes,
}

-- Removal takes chunks off the front.
remove_chunks_complete :
    (cs : List Chunk) (len : ℕ) (r : Cut)
    → all_chunks_complete cs ≡ true
    → all_chunks_complete (remove_chunks cs len r).chunks ≡ true
unfolding remove_chunks all_chunks_complete
remove_chunks_complete [] len r h = refl
remove_chunks_complete (c ∷ cs) len r h =
    let n = min len c.datalen in
    let rest : Cut = record r { removed = r.removed + n } in
    ground (arith, remove_chunks_complete cs (len - n) rest)

-- What a removal leaves alone.
pub record Trimmed (p q : ReceiverIrob) : Type 0 where
  pub same_id : q.id ≡ p.id
  pub same_deps : q.deps ≡ p.deps
  pub same_dependents : q.dependents ≡ p.dependents
  pub same_placeholder : q.placeholder ≡ p.placeholder
  pub same_labels : q.send_labels ≡ p.send_labels
  pub same_released : q.ext.released ≡ p.ext.released
  pub still_complete : is_complete p ≡ some true → is_complete q ≡ some true

cut_chunks-Trimmed : (p : ReceiverIrob) (len : ℕ) (r : Cut) → Trimmed p (cut_chunks p len r)
unfolding cut_chunks is_complete
cut_chunks-Trimmed p len r = record {
  same_id = refl;
  same_deps = refl;
  same_dependents = refl;
  same_placeholder = refl;
  same_labels = refl;
  same_released = refl;
  still_complete = λ h. ground (arith, remove_chunks_complete p.chunks len r);
}

pub remove_bytes-Trimmed :
    (p : ReceiverIrob) (len : ℕ) (q : ReceiverIrob) → remove_bytes p len ≡ some q → Trimmed p q
unfolding remove_bytes
remove_bytes-Trimmed p len q e =
    let part = p.ext.partial_chunk in
    let n = min len (part.datalen - p.ext.offset) in
    let r1 = cut_partial part p.ext.offset len in
    let r2 : Cut = record { chunks = []; partial = part; offset = p.ext.offset; removed = 0 } in
    elim (Bool-cases (is_some part.datas)) [
      | inl s ↦
          let same : cut_chunks p (len - n) r1 ≡ q = ground arith in
          subst (Trimmed p) same (cut_chunks-Trimmed p (len - n) r1)
      | inr s ↦
          let same : cut_chunks p len r2 ≡ q = ground arith in
          subst (Trimmed p) same (cut_chunks-Trimmed p len r2)
    ]
