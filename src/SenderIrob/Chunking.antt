-- ===== src/SenderIrob/Chunking.antt =====
-- Cutting an IROB into chunks as several sockets ask for bytes.
use libcmm.Prelude.{
  ℕ, zero, suc, ◌+◌, ◌-◌, ◌≤◌, ◌<◌, ◌≡◌, refl, sym, ap, ◌∙◌, inl, inr, min, some, List, [], ◌∷◌,
  arith, ltb, length, get_or, take, drop, Bool-cases, length-append, length-drop, take-beyond,
}
use libcmm.Irob.{Chunk, bytes_of}
use libcmm.Irob.Data.{Solid, data_of, take-min}
use libcmm.SenderIrob.{
  Socket, SenderIrob, sum_chunks, upper_bound, zero_chunk, find_app_chunk, gather,
  get_bytes_internal,
}
use libcmm.SenderIrob.Locate.{
  Consecutive, Located, data_from, find_inside, find_behind, Fits, joined, gather-joined,
  gather-count, sum-drop,
}

-- The chunks that were cut: numbered and not empty.
abbrev pub Numbered : ℕ → List Chunk → Type 0
Numbered i [] = Unit {0}
Numbered i (c ∷ cs) = (c.seqno ≡ i) × (0 < c.datalen) × Numbered (i + 1) cs

pub record Chunked (p : SenderIrob) : Type 0 where
  pub app : Consecutive 0 p.chunks
  pub solid : Solid p.chunks
  pub sent : Consecutive 0 p.ext.sent_chunks
  pub numbered : Numbered 0 p.ext.sent_chunks
  pub within : sum_chunks p.ext.sent_chunks ≤ sum_chunks p.chunks
  pub reached : (s : Socket) → p.ext.next_seqnos_to_send s ≤ length p.ext.sent_chunks
  pub offsets :
      (s : Socket)
      → p.ext.irob_offsets s ≡ sum_chunks (take (p.ext.next_seqnos_to_send s) p.ext.sent_chunks)

sum-take-all : (cs : List Chunk) (k : ℕ) → length cs ≤ k → sum_chunks (take k cs) ≡ sum_chunks cs
sum-take-all cs k le = ap sum_chunks (take-beyond k cs le)

-- The chunk of seqno `k` starts behind those before it, and a search for its offset finds it.
pub sent_at :
    (o i k : ℕ) (cs : List Chunk)
    → Consecutive o cs
    → Numbered i cs
    → k < length cs
    → ((get_or cs k zero_chunk).offset ≡ o + sum_chunks (take k cs))
      × (0 < (get_or cs k zero_chunk).datalen)
      × (sum_chunks (take k cs) + (get_or cs k zero_chunk).datalen ≤ sum_chunks cs)
      × (upper_bound cs (o + sum_chunks (take k cs)) ≡ suc k)
      × (sum_chunks (take (suc k) cs) ≡ sum_chunks (take k cs) + (get_or cs k zero_chunk).datalen)
unfolding sum_chunks upper_bound
sent_at o i k [] h n lt = absurd (omega arith)
sent_at o i zero (c ∷ []) h n lt = ground (arith, h, n)
sent_at o i zero (c ∷ d ∷ ds) h n lt = ground (arith, h, n)
sent_at o i (suc k) (c ∷ cs) h n lt =
    let ih = sent_at (o + c.datalen) (i + 1) k cs h.1 n.2 (omega arith) in ground (arith, h.0, ih)

find_sent :
    (k : ℕ) (cs : List Chunk)
    → Consecutive 0 cs
    → Numbered 0 cs
    → k < length cs
    → find_app_chunk cs (sum_chunks (take k cs)) ≡ some k
unfolding find_app_chunk
find_sent k [] h n lt = absurd (omega arith)
find_sent k (c ∷ cs) h n lt = let f = sent_at 0 0 k (c ∷ cs) h n lt in ground (arith, f)

Solid-drop : (k : ℕ) (cs : List Chunk) → Solid cs → Solid (drop k cs)
Solid-drop zero cs s = s
Solid-drop (suc k) [] s = tt
Solid-drop (suc k) (c ∷ cs) s = Solid-drop k cs s.1

Fits-drop :
    (k a : ℕ) (cs : List Chunk)
    → k < length cs
    → a ≤ (get_or cs k zero_chunk).datalen
    → Fits a (drop k cs)
Fits-drop k a [] lt le = absurd (omega arith)
Fits-drop zero a (c ∷ cs) lt le = le
Fits-drop (suc k) a (c ∷ cs) lt le = Fits-drop k a cs (omega arith) le

pub length-data_of : (cs : List Chunk) → Solid cs → length (data_of cs) ≡ sum_chunks cs
unfolding sum_chunks
length-data_of [] s = refl
length-data_of (c ∷ cs) s =
    ground (arith, s, length-data_of cs s.1, length-append (bytes_of c) (data_of cs))

-- What is gathered from `x` is the application's bytes from there, as many as are wanted and there.
gather_at :
    (cs : List Chunk) (x want k : ℕ)
    → Consecutive 0 cs
    → Solid cs
    → x < sum_chunks cs
    → Located 0 cs x k
    → let r = gather (drop k cs) (x - (get_or cs k zero_chunk).offset) want in
      (r.1 ≡ min want (sum_chunks cs - x)) × (joined r.0 ≡ take r.1 (drop x (data_of cs)))
gather_at cs x want k h s lt l =
    let a = x - (get_or cs k zero_chunk).offset in
    let f : Fits a (drop k cs) = Fits-drop k a cs l.within (ground (arith, l.inside)) in
    let count : (gather (drop k cs) a want).1 ≡ min want (sum_chunks cs - x) =
      ground (arith, gather-count (drop k cs) a want f, sum-drop cs 0 k h l.within, l.starts) in
    let minus_zero : x - 0 ≡ x = omega arith in
    let all : length (drop x (data_of cs)) ≡ sum_chunks cs - x =
      ground (arith, length-drop x (data_of cs), length-data_of cs s) in
    (
      count,
      gather-joined (drop k cs) a want (Solid-drop k cs s) f
          ∙ ap (λ xs. take want xs)
              (data_from 0 k x cs h s l.within l.starts ∙ ap (λ y. drop y (data_of cs)) minus_zero)
          ∙ sym (take-min want (drop x (data_of cs)))
          ∙ ap (λ n. take n (drop x (data_of cs))) (ap (λ n. min want n) all ∙ sym count),
    )

-- The bytes from the end of the first `k` chunks cut.
pub record Got (p : SenderIrob) (k x len : ℕ) : Type 0 where
  pub result : List (List ℕ) × ℕ
  pub gets : get_bytes_internal p x len ≡ some result
  pub bytes : joined result.0 ≡ take result.1 (drop x (data_of p.chunks))
  pub again :
      k < length p.ext.sent_chunks → result.1 ≡ (get_or p.ext.sent_chunks k zero_chunk).datalen
  pub new : k ≡ length p.ext.sent_chunks → result.1 ≡ min len (sum_chunks p.chunks - x)

pub get_bytes_lem :
    (p : SenderIrob) (k x len : ℕ)
    → Chunked p
    → k ≤ length p.ext.sent_chunks
    → x ≡ sum_chunks (take k p.ext.sent_chunks)
    → Got p k x len
unfolding get_bytes_internal
get_bytes_lem p k x len h le e = elim (Bool-cases (ltb x (sum_chunks p.chunks))) [
  | inr past ↦
      let f = find_behind p.chunks x h.app (ground arith) in
      record {
        result = ([], 0);
        gets = ground (arith, f);
        bytes = refl;
        again = λ lt.
            let s = sent_at 0 0 k p.ext.sent_chunks h.sent h.numbered lt in
            absurd (ground (arith, s, h.within));
        new = λ eq. ground arith;
      }
  | inl inside ↦
      let (i, f, l) = find_inside p.chunks x h.app (ground arith) in
      elim (Bool-cases (ltb k (length p.ext.sent_chunks))) [
        | inl old ↦
            let s = sent_at 0 0 k p.ext.sent_chunks h.sent h.numbered (ground arith) in
            let fs = find_sent k p.ext.sent_chunks h.sent h.numbered (ground arith) in
            let fx : find_app_chunk p.ext.sent_chunks x ≡ some k =
              ap (λ y. find_app_chunk p.ext.sent_chunks y) e ∙ fs in
            let want = (get_or p.ext.sent_chunks k zero_chunk).datalen in
            let g = gather_at p.chunks x want i h.app h.solid (ground arith) l in
            record {
              result = gather (drop i p.chunks) (x - (get_or p.chunks i zero_chunk).offset) want;
              gets = ground (arith, f, fx, s, l.within);
              bytes = g.1;
              again = λ lt. ground (arith, g.0, s, h.within);
              new = λ eq. absurd (ground arith);
            }
        | inr fresh ↦
            let all : k ≡ length p.ext.sent_chunks = ground arith in
            let fx : find_app_chunk p.ext.sent_chunks x ≡ some (length p.ext.sent_chunks) =
              find_behind p.ext.sent_chunks x h.sent
                (ground (arith, sum-take-all p.ext.sent_chunks k)) in
            let g = gather_at p.chunks x len i h.app h.solid (ground arith) l in
            record {
              result = gather (drop i p.chunks) (x - (get_or p.chunks i zero_chunk).offset) len;
              gets = ground (arith, f, fx, l.within);
              bytes = g.1;
              again = λ lt. absurd (ground arith);
              new = λ eq. g.0;
            }
      ]
]
