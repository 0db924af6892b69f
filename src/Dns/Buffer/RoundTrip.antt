-- ===== src/Dns/Buffer/RoundTrip.antt =====
-- What `write_qname` writes of a name is what `read_qname` reads.
use gis.Base.{
  ℕ, ◌+◌, ◌≤◌, ◌≡◌, ◌≢◌, refl, sym, ap, ◌∙◌, subst, arith, false, List, [], ◌∷◌, length, All,
  length-append, append-[], inl, inr,
}
use gis.Bytes.{Text}
use gis.Commons.Domain.{join_dots-split_dots, split_dots-full}
use gis.Dns.Buffer.{ok, split_dots, join_dots, to_lowercase, write_qname, read_labels, read_qname}
use gis.Dns.Buffer.Vector.{VectorPacketBuffer, vector_buffer}
use gis.Dns.Buffer.Names.{text_of}
use gis.Dns.Buffer.Written.{Written, write_labels_lem, IsNamed, IsNamed-append}
use gis.Dns.Buffer.Labels.{IsShort, tail_need, tail_text}
use gis.Dns.Buffer.Writes.{Writes, IsTable}

tail_need-full :
    (labels : List Text) → labels ≢ [] → tail_need labels ≡ length (join_dots labels) + 2
tail_need-full [] n = absurd (n refl)
tail_need-full (l ∷ ls) n = refl

tail_text-full :
    (labels : List Text) (delim : Text)
    → labels ≢ []
    → tail_text labels delim ≡ text_of (join_dots labels) delim
tail_text-full [] delim n = absurd (n refl)
tail_text-full (l ∷ ls) delim n = refl

-- A name, given enough rounds for its labels and a pointer.
pub qname-Writes :
    (name : Text) (fuel : ℕ) (v : VectorPacketBuffer)
    → v.pos ≡ length v.buffer
    → All IsShort (split_dots name)
    → length name + 2 ≤ fuel
    → Writes (write_qname name) (length name + 2) (read_qname fuel []) (to_lowercase name) v
unfolding write_qname read_qname
qname-Writes name fuel v e short enough = record {
  after = w.after;
  bytes = w.bytes;
  runs = w.runs;
  at_end = w.at_end;
  grows = w.grows;
  fits = omega (arith, w.fits, need);
  reads = λ le table.
      let (tail, entries) = w.reads le (λ other p found shorter. table other p found) in
      (
        λ other p found. elim (entries other p found) [
          | inl old ↦
              subst (λ b. IsNamed b other p) (sym w.grows)
                (IsNamed-append v.buffer w.bytes other p (table other p old))
          | inr new ↦ new
        ],
        record {
          run = λ u rest same at.
              subst
                (λ s.
                  read_labels fuel s false [] [] u
                  ≡ ok (to_lowercase name, record u { pos = w.after.pos }))
                (sym at)
                (tail.run u rest same fuel (omega (arith, need)) false [] []
                  ∙ ap (λ t. ok (t, record u { pos = w.after.pos })) text);
        },
      );
}
  where
    w : Written (split_dots name) v
    w = write_labels_lem (split_dots name) v e short

    joined : join_dots (split_dots name) ≡ name
    joined = (join_dots-split_dots name).0

    need : tail_need (split_dots name) ≡ length name + 2
    need = tail_need-full (split_dots name) (split_dots-full name) ∙ ap (λ n. length n + 2) joined

    text : tail_text (split_dots name) [] ≡ to_lowercase name
    text = tail_text-full (split_dots name) [] (split_dots-full name) ∙ ap to_lowercase joined

-- At the end of a buffer whose label table is right, with room below 2 ^ 14, a name of labels of 1
-- to 63 bytes can be written, and given a round for each of its bytes and two more it is read back
-- there in lower case, with the reader left behind it. The label table is right again.
pub write_qname-read_qname :
    (name : Text) (fuel : ℕ) (v : VectorPacketBuffer)
    → v.pos ≡ length v.buffer
    → IsTable v
    → All IsShort (split_dots name)
    → length name + 2 ≤ fuel
    → length v.buffer + length name + 2 ≤ 16384
    → (after : VectorPacketBuffer) × (write_qname name v ≡ ok (tt, after))
      × (read_qname fuel [] (record after { pos = v.pos }) ≡ ok (to_lowercase name, after))
      × IsTable after
write_qname-read_qname name fuel v e table short enough room =
    let w = qname-Writes name fuel v e short enough in
    let low : length w.after.buffer ≤ 16384 =
      omega (arith, ap length w.grows, length-append v.buffer w.bytes, w.fits, room) in
    let (table', rd) = w.reads low table in
    (
      w.after,
      w.runs,
      rd.run (record w.after { pos = v.pos }) [] (sym (append-[] w.after.buffer)) refl,
      table',
    )
