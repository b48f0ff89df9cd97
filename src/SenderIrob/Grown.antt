-- ===== src/SenderIrob/Grown.antt =====
-- How an IROB at the sender may grow, and what then stays true of what was handed out.
use libcmm.Prelude.{
  ℕ, zero, suc, ◌+◌, ◌≤◌, ◌≡◌, refl, sym, ap, ◌∙◌, some, List, [], ◌∷◌, ◌++◌, arith, length, take,
  drop, length-drop, drop-within, All,
}
use mathlib.Core.List.{append_assoc, append-nil}
use libcmm.StdSet.{set_insert}
use libcmm.Irob.{Chunk, bytes_of}
use libcmm.Irob
use libcmm.Irob.Data.{Solid, data_of}
use libcmm.SenderIrob.{Socket, SenderIrob, sum_chunks, new_sender_irob, add_chunk}
use libcmm.SenderIrob.Sends.{Ready, get_ready_bytes}
use libcmm.SenderIrob.Marks.{mark_send_on_all_networks, mark_not_received, chunk_less}
use libcmm.SenderIrob.Chunking.{length-data_of}
use libcmm.SenderIrob.Record.{Extends, Extends-refl}
use libcmm.SenderIrob.Serve.{Handed}

pub take-within : (n : ℕ) (xs ys : List ℕ) → n ≤ length xs → take n (xs ++ ys) ≡ take n xs
take-within zero [] ys le = refl
take-within zero (x ∷ xs) ys le = refl
take-within (suc n) [] ys le = absurd (omega arith)
take-within (suc n) (x ∷ xs) ys le = ap (λ zs. x ∷ zs) (take-within n xs ys (omega arith))

-- Bytes behind those in question change nothing.
pub slice-append :
    (o b : ℕ) (xs ys : List ℕ) → o + b ≤ length xs → take b (drop o (xs ++ ys)) ≡ take b (drop o xs)
slice-append o b xs ys le =
    ap (λ zs. take b zs) (drop-within o xs ys (omega arith))
    ∙ take-within b (drop o xs) ys (omega (arith, length-drop o xs))

pub data_of-append : (cs ds : List Chunk) → data_of (cs ++ ds) ≡ data_of cs ++ data_of ds
data_of-append [] ds = refl
data_of-append (c ∷ cs) ds =
    ap (λ xs. bytes_of c ++ xs) (data_of-append cs ds)
    ∙ sym (append_assoc (bytes_of c) (data_of cs) (data_of ds))

pub Solid-append :
    (cs : List Chunk) (c : Chunk)
    → Solid cs
    → c.datalen ≡ length (bytes_of c)
    → Solid (cs ++ c ∷ [])
Solid-append [] c s e = (e, tt)
Solid-append (d ∷ cs) c s e = (s.0, Solid-append cs c s.1 e)

pub set_insert-All :
    (P : Chunk → Type 0) (x : Chunk) (ys : List Chunk)
    → P x
    → All P ys
    → All P (set_insert chunk_less x ys)
unfolding set_insert
set_insert-All P x [] px h = (px, tt)
set_insert-All P x (y ∷ ys) px h = ground (arith, set_insert-All P x ys)

-- A history, and what was handed out in it, the latest first.
pub data History : SenderIrob → List Ready → Type 0 where
  start :
      (id : ℕ) (deps bytes : List ℕ) (labels : ℕ)
      → History (new_sender_irob id deps bytes labels) []
  adds :
      {p : SenderIrob} {rs : List Ready} (c : Chunk)
      → History p rs
      → c.datalen ≡ length (bytes_of c)
      → History (add_chunk p c).0 rs
  finishes : {p : SenderIrob} {rs : List Ready} → History p rs → History (Irob.finish p).0 rs
  widens :
      {p : SenderIrob} {rs : List Ready} → History p rs → History (mark_send_on_all_networks p) rs
  asks :
      {p : SenderIrob} {rs : List Ready} (csock : Socket) (requested : ℕ) (r : Ready)
      → History p rs
      → get_ready_bytes p csock requested ≡ some r
      → History r.next (r ∷ rs)
  asked_again :
      {p q : SenderIrob} {rs : List Ready} (seqno : ℕ)
      → History p rs
      → mark_not_received p seqno ≡ some q
      → History q rs

-- The chunks of the application only grow.
pub record Grown (p q : SenderIrob) : Type 0 where
  pub extends : Extends p q
  pub more : List ℕ
  pub same_data : data_of q.chunks ≡ data_of p.chunks ++ more
  pub longer : sum_chunks p.chunks ≤ sum_chunks q.chunks

pub keep-Handed :
    (p q : SenderIrob) (r : Ready) → Solid p.chunks → Grown p q → Handed p r → Handed q r
keep-Handed p q r s g h = record {
  bytes =
      h.bytes
      ∙ sym (
          ap (λ xs. take r.bytes_requested (drop r.offset xs)) g.same_data
          ∙ slice-append r.offset r.bytes_requested (data_of p.chunks) g.more
              (omega (arith, h.within, length-data_of p.chunks s)));
  within = omega (arith, h.within, g.longer);
  recorded = λ lt.
      let (a, b, c) = h.recorded lt in
      let same = g.extends.kept r.seqno a in
      (
        omega (arith, g.extends.longer),
        ap (λ (x : Chunk). x.offset) same ∙ b,
        ap (λ (x : Chunk). x.datalen) same ∙ c,
      );
}

pub keep_all :
    (p q : SenderIrob) (rs : List Ready)
    → Solid p.chunks
    → Grown p q
    → All (Handed p) rs
    → All (Handed q) rs
keep_all p q [] s g h = tt
keep_all p q (r ∷ rs) s g h = (keep-Handed p q r s g h.0, keep_all p q rs s g h.1)

pub Grown-refl : (p : SenderIrob) → Grown p p
Grown-refl p = record {
  extends = Extends-refl p;
  more = [];
  same_data = sym (append-nil (data_of p.chunks));
  longer = omega arith;
}
