-- ===== src/SenderIrob/Record.antt =====
-- The list of chunks cut, with one more at its end.
use libcmm.Prelude.{
  ℕ, zero, suc, ◌+◌, ◌≤◌, ◌<◌, ◌≡◌, refl, ap, List, [], ◌∷◌, ◌++◌, arith, length, get_or, take,
}
use libcmm.Irob.{Chunk}
use libcmm.SenderIrob.{SenderIrob, sum_chunks, zero_chunk}
use libcmm.SenderIrob.Locate.{Consecutive}
use libcmm.SenderIrob.Chunking.{Numbered, Chunked}

abbrev pub with_last : List Chunk → Chunk → List Chunk
with_last cs c = cs ++ c ∷ []

pub Consecutive-with_last :
    (o : ℕ) (cs : List Chunk) (c : Chunk)
    → Consecutive o cs
    → c.offset ≡ o + sum_chunks cs
    → Consecutive o (with_last cs c)
unfolding sum_chunks
Consecutive-with_last o [] c h e = (ground arith, tt)
Consecutive-with_last o (d ∷ cs) c h e =
    (h.0, Consecutive-with_last (o + d.datalen) cs c h.1 (ground arith))

pub Numbered-with_last :
    (i : ℕ) (cs : List Chunk) (c : Chunk)
    → Numbered i cs
    → c.seqno ≡ i + length cs
    → 0 < c.datalen
    → Numbered i (with_last cs c)
Numbered-with_last i [] c n e l = (ground arith, l, tt)
Numbered-with_last i (d ∷ cs) c n e l =
    (n.0, n.1, Numbered-with_last (i + 1) cs c n.2 (ground arith) l)

pub sum-with_last :
    (cs : List Chunk) (c : Chunk) → sum_chunks (with_last cs c) ≡ sum_chunks cs + c.datalen
unfolding sum_chunks
sum-with_last [] c = ground arith
sum-with_last (d ∷ cs) c = ground (arith, sum-with_last cs c)

pub last-with_last :
    (cs : List Chunk) (c : Chunk) → get_or (with_last cs c) (length cs) zero_chunk ≡ c
last-with_last [] c = refl
last-with_last (d ∷ cs) c = last-with_last cs c

pub take-with_last :
    (k : ℕ) (cs : List Chunk) (c : Chunk) → k ≤ length cs → take k (with_last cs c) ≡ take k cs
take-with_last zero [] c le = refl
take-with_last zero (d ∷ cs) c le = refl
take-with_last (suc k) [] c le = absurd (omega arith)
take-with_last (suc k) (d ∷ cs) c le = ap (λ xs. d ∷ xs) (take-with_last k cs c (omega arith))

-- What later calls leave of the chunks cut before.
pub record Extends (p q : SenderIrob) : Type 0 where
  pub longer : length p.ext.sent_chunks ≤ length q.ext.sent_chunks
  pub kept :
      (j : ℕ)
      → j < length p.ext.sent_chunks
      → get_or q.ext.sent_chunks j zero_chunk ≡ get_or p.ext.sent_chunks j zero_chunk

pub Extends-refl : (p : SenderIrob) → Extends p p
Extends-refl p = record { longer = omega arith; kept = λ j lt. refl }

pub get_or-with_last :
    (cs : List Chunk) (c : Chunk) (j : ℕ)
    → j < length cs
    → get_or (with_last cs c) j zero_chunk ≡ get_or cs j zero_chunk
get_or-with_last [] c j lt = absurd (omega arith)
get_or-with_last (d ∷ cs) c zero lt = refl
get_or-with_last (d ∷ cs) c (suc j) lt = get_or-with_last cs c j (omega arith)

-- Some socket moved on behind the chunk of seqno `k`.
pub record Advanced (p : SenderIrob) (k x len : ℕ) (q : SenderIrob) : Type 0 where
  pub chunked : Chunked q
  pub same_app : q.chunks ≡ p.chunks
  pub same_resends : q.ext.resend_chunks ≡ p.ext.resend_chunks
  pub same_bytes : q.ext.num_bytes ≡ p.ext.num_bytes
  pub extends : Extends p q
  pub recorded : k < length q.ext.sent_chunks
  pub seqno : (get_or q.ext.sent_chunks k zero_chunk).seqno ≡ k
  pub offset : (get_or q.ext.sent_chunks k zero_chunk).offset ≡ x
  pub datalen : (get_or q.ext.sent_chunks k zero_chunk).datalen ≡ len

pub seqno_at :
    (i k : ℕ) (cs : List Chunk)
    → Numbered i cs
    → k < length cs
    → (get_or cs k zero_chunk).seqno ≡ i + k
seqno_at i k [] n lt = absurd (omega arith)
seqno_at i zero (c ∷ cs) n lt = ground (arith, n.0)
seqno_at i (suc k) (c ∷ cs) n lt = ground (arith, seqno_at (i + 1) k cs n.2 (omega arith))
