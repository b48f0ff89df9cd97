-- ===== src/ReceiverIrob/Removing.antt =====
-- Removing bytes from the front of an IROB.
use libcmm.Prelude.{
  ℕ, ◌+◌, ◌-◌, ◌<◌, ◌≡◌, refl, sym, ap, ◌∙◌, inl, inr, min, true, false, Option, none, some, List,
  [], ◌∷◌, ◌++◌, arith, leb, ◌>>=◌, length, take, drop, is_some, Bool-cases, drop-within, drop-past,
  drop-drop, length-drop, All, take-append-drop, length-append, drop-nil,
}
use libcmm.Irob.{Chunk, bytes_of}
use libcmm.Irob.Data.{Solid, data_of}
use libcmm.ReceiverIrob.{
  ReceiverIrob, bytes_of, read_data, Cut, remove_chunks, cut_partial, cut_chunks, remove_bytes,
}
use libcmm.ReceiverIrob.Reading.{contents, IsReadable, read_data_lem}

-- What a cut leaves is `xs`, and every chunk of it is as long as it says.
record Leaves (t : Cut) (xs : List ℕ) (removed : ℕ) : Type 0 where
  pub solid : Solid t.chunks
  pub partial_len : t.partial.datalen ≡ length (bytes_of t.partial)
  pub partial_left : is_some t.partial.datas ≡ true → t.offset < t.partial.datalen
  pub left : drop t.offset (bytes_of t.partial) ++ data_of t.chunks ≡ xs
  pub removed_lem : t.removed ≡ removed

remove_chunks_lem :
    (cs : List Chunk) (len : ℕ) (r : Cut)
    → Solid cs
    → is_some r.partial.datas ≡ false
    → r.partial.datalen ≡ 0
    → Leaves
        (remove_chunks cs len r)
        (drop len (data_of cs))
        (r.removed + min len (length (data_of cs)))
unfolding remove_chunks
remove_chunks_lem [] len r s h z = record {
  solid = tt;
  partial_len = ground arith;
  partial_left = ground arith;
  left = ground (arith, drop-nil {A = ℕ} r.offset, drop-nil {A = ℕ} len);
  removed_lem = ground arith;
}
remove_chunks_lem (c ∷ cs) len r s h z =
    let n = min len c.datalen in
    let ih = remove_chunks_lem cs (len - n) (record r { removed = r.removed + n }) s.1 h z in
    record {
      solid = ground (arith, s, ih);
      partial_len = ground (arith, s, ih);
      partial_left = ground (arith, s, ih);
      left = ground (
        arith,
        s,
        ih,
        drop-within len (bytes_of c) (data_of cs),
        drop-past len (len - n) (bytes_of c) (data_of cs),
        drop-nil {A = ℕ} r.offset,
      );
      removed_lem = ground (arith, s, ih, length-append (bytes_of c) (data_of cs));
    }

remove_chunks_zero : (cs : List Chunk) (r : Cut) → remove_chunks cs 0 r ≡ record r { chunks = cs }
unfolding remove_chunks
remove_chunks_zero [] r = refl
remove_chunks_zero (c ∷ cs) r = refl

-- The state after a removal: `xs` is what is left to read.
pub record Rests (p : ReceiverIrob) (len : ℕ) (xs : List ℕ) : Type 0 where
  pub next : ReceiverIrob
  pub removes : remove_bytes p len ≡ some next
  pub readable : IsReadable next
  pub rest : contents next ≡ xs

cut_chunks-IsReadable :
    (p : ReceiverIrob) (k : ℕ) (r : Cut) (xs : List ℕ) (removed : ℕ)
    → Leaves (remove_chunks p.chunks k r) xs removed
    → p.ext.num_bytes - removed ≡ length xs
    → IsReadable (cut_chunks p k r)
unfolding cut_chunks
cut_chunks-IsReadable p k r xs removed h e = record {
  solid = h.solid;
  partial_len = h.partial_len;
  partial_left = h.partial_left;
  counted = ap (λ n. p.ext.num_bytes - n) h.removed_lem ∙ e ∙ ap (λ ys. length ys) (sym h.left);
}

Leaves-to : (t : Cut) (xs ys : List ℕ) (m n : ℕ) → Leaves t xs m → xs ≡ ys → m ≡ n → Leaves t ys n
Leaves-to t xs ys m n h e f = record {
  solid = h.solid;
  partial_len = h.partial_len;
  partial_left = h.partial_left;
  left = h.left ∙ e;
  removed_lem = h.removed_lem ∙ f;
}

cut_partial-Leaves :
    (p : ReceiverIrob) (len : ℕ)
    → IsReadable p
    → 0 < len
    → is_some p.ext.partial_chunk.datas ≡ true
    → Leaves
        (remove_chunks p.chunks
          (len - min len (p.ext.partial_chunk.datalen - p.ext.offset))
          (cut_partial p.ext.partial_chunk p.ext.offset len))
        (drop len (contents p))
        (min len (length (contents p)))
unfolding cut_partial
cut_partial-Leaves p len h l s =
    let part = p.ext.partial_chunk in
    let bs = drop p.ext.offset (bytes_of part) in
    elim (Bool-cases (leb (part.datalen - p.ext.offset) len)) [
      | inl e ↦
          let k = len - min len (part.datalen - p.ext.offset) in
          let r : Cut = record {
            chunks = [];
            partial = record part { datas = none; datalen = 0 };
            offset = 0;
            removed = min len (part.datalen - p.ext.offset);
          } in
          rw (e) (
            Leaves-to (remove_chunks p.chunks k r) (drop k (data_of p.chunks))
              (drop len (contents p)) (r.removed + min k (length (data_of p.chunks)))
              (min len (length (contents p))) (remove_chunks_lem p.chunks k r h.solid refl refl)
              (sym (
                drop-past len k bs (data_of p.chunks)
                  (ground (arith, h, s, e, length-drop p.ext.offset (bytes_of part)))
                  (ground (arith, h, s, e, length-drop p.ext.offset (bytes_of part)))))
              (ground (
                arith,
                h,
                s,
                e,
                length-drop p.ext.offset (bytes_of part),
                length-append bs (data_of p.chunks),
              )))
      | inr e ↦
          let z : len - min len (part.datalen - p.ext.offset) ≡ 0 = ground (arith, e) in
          let m : min len (part.datalen - p.ext.offset) ≡ len = ground (arith, e) in
          rw (e, z, remove_chunks_zero)
            (record {
              solid = h.solid;
              partial_len = h.partial_len;
              partial_left = λ q. ground (arith, e, m, h);
              left = ground (
                arith,
                h,
                e,
                m,
                drop-drop p.ext.offset len (bytes_of part),
                drop-within len bs (data_of p.chunks),
                length-drop p.ext.offset (bytes_of part),
              );
              removed_lem = ground (
                arith,
                h,
                e,
                m,
                length-drop p.ext.offset (bytes_of part),
                length-append bs (data_of p.chunks),
              );
            })
    ]

-- What `remove_bytes` leaves is the unread bytes after the first `len`, or nothing when there are fewer.
pub remove_bytes_lem :
    (p : ReceiverIrob) (len : ℕ) → IsReadable p → 0 < len → Rests p len (drop len (contents p))
unfolding remove_bytes cut_chunks
remove_bytes_lem p len h l =
    let part = p.ext.partial_chunk in
    let n = min len (part.datalen - p.ext.offset) in
    let count : p.ext.num_bytes - min len (length (contents p)) ≡ length (drop len (contents p)) =
      ground (arith, h, length-drop len (contents p)) in
    elim (Bool-cases (is_some part.datas)) [
      | inl s ↦
          let r = cut_partial part p.ext.offset len in
          let t = cut_partial-Leaves p len h l s in
          record {
            next = cut_chunks p (len - n) r;
            removes = ground (arith, h, s);
            readable =
                cut_chunks-IsReadable p (len - n) r (drop len (contents p))
                  (min len (length (contents p))) t count;
            rest = t.left;
          }
      | inr s ↦
          let r : Cut = record {
            chunks = [];
            partial = part;
            offset = p.ext.offset;
            removed = 0;
          } in
          let e : contents p ≡ data_of p.chunks =
            ground (arith, s, drop-nil {A = ℕ} p.ext.offset) in
          let t =
            Leaves-to (remove_chunks p.chunks len r) (drop len (data_of p.chunks))
              (drop len (contents p)) (0 + min len (length (data_of p.chunks)))
              (min len (length (contents p)))
              (remove_chunks_lem p.chunks len r h.solid s (ground (arith, h, s)))
              (ap (λ xs. drop len xs) (sym e)) (ground (arith, e)) in
          record {
            next = cut_chunks p len r;
            removes = ground (arith, s);
            readable =
                cut_chunks-IsReadable p len r (drop len (contents p))
                  (min len (length (contents p))) t count;
            rest = t.left;
          }
    ]

-- A reader that takes bytes in calls of the given lengths, each read removed before the next.
pub read_each : ReceiverIrob → List ℕ → Option (List ℕ)
read_each p [] = some []
read_each p (len ∷ lens) =
    read_data p len >>= λ xs. remove_bytes p len >>= λ q. read_each q lens >>= λ ys. some (xs ++ ys)

abbrev pub sum : List ℕ → ℕ
sum [] = 0
sum (n ∷ ns) = n + sum ns

abbrev pub IsPositive : ℕ → Type 0
IsPositive n = 0 < n

-- A reader that takes the bytes of a readable IROB in calls of any positive lengths, each read removed
-- before the next, fails no ASSERT and gets the unread bytes in order, as one read of the whole would.
pub read_each_lem :
    (p : ReceiverIrob) (lens : List ℕ)
    → IsReadable p
    → All IsPositive lens
    → read_each p lens ≡ some (take (sum lens) (contents p))
unfolding read_each
read_each_lem p [] h l = refl
read_each_lem p (len ∷ lens) h l =
    let r = remove_bytes_lem p len h l.0 in
    let ih = read_each_lem r.next lens r.readable l.1 in
    rw (read_data_lem p len h l.0, r.removes, ih, r.rest)
      (ap (λ xs. some xs) (take-append-drop len (sum lens) (contents p)))
