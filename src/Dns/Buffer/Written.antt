-- ===== src/Dns/Buffer/Written.antt =====
-- What `write_qname` writes, compressed as it is, is what `read_qname` reads.
use gis.Base.{
  ℕ, ◌+◌, ◌/◌, ◌%◌, ◌<◌, ◌≤◌, ◌^◌, ◌≡◌, refl, ap, ◌∙◌, subst, arith, bit_or, List, [], ◌∷◌, ◌++◌,
  some, none, length, All, length-append, append_assoc, ◌⊎◌, inl, inr, Option-cases,
}
use gis.Bytes.{Text}
use gis.Bytes.Equality.{same_hash_iff}
use gis.Dns.Buffer.{ok, ◌>>◌, join_dots, write_u8, write_bytes, write_label, write_labels}
use gis.Dns.Buffer.Reads.{bind-ok}
use gis.Dns.Buffer.Vector.{VectorPacketBuffer, vector_buffer, lookup_label, save_label}
use gis.Dns.Buffer.Names.{
  NameAt, NameAt-append, NameAt-end, NameAt-label, NameAt-pointer, text_of, pointer_bytes,
}
use gis.Dns.Buffer.Labels.{
  IsShort, tail_need, tail_text, NameAt-weaken, text_of-label, need_of-label, size_of-label,
  join_dots-length,
}
use gis.Dns.Buffer.Wrote.{wrote, write_u8_lem, wrote-wrote, write_bytes_lem, write_u16_lem}

-- `name` can be read at `p`, where a pointer can point.
abbrev pub IsNamed : List ℕ → Text → ℕ → Type 0
IsNamed bytes name p =
    (p < 16384) × ((stop : ℕ) × NameAt bytes (length name + 1) p stop (text_of name))

abbrev IsTableBelow : ℕ → VectorPacketBuffer → Type 0
IsTableBelow n v =
    (name : Text) (p : ℕ)
    → lookup_label name v.label_lookup ≡ some p
    → length name ≤ n
    → IsNamed v.buffer name p

-- What is left behind by a write of the labels: the name can be read, and so can the new entries.
pub record Written (labels : List Text) (v : VectorPacketBuffer) : Type 0 where
  pub after : VectorPacketBuffer
  pub bytes : List ℕ
  pub runs : write_labels labels v ≡ ok (tt, after)
  pub at_end : after.pos ≡ length after.buffer
  pub grows : after.buffer ≡ v.buffer ++ bytes
  pub fits : length bytes ≤ tail_need labels
  pub reads :
      length after.buffer ≤ 16384
      → IsTableBelow (length (join_dots labels)) v
      → NameAt after.buffer (tail_need labels) v.pos after.pos (tail_text labels)
        × ((name : Text) (p : ℕ)
            → lookup_label name after.label_lookup ≡ some p
            → (lookup_label name v.label_lookup ≡ some p) ⊎ IsNamed after.buffer name p)

end-Written : (v : VectorPacketBuffer) → v.pos ≡ length v.buffer → Written [] v
unfolding write_labels
end-Written v e = record {
  after = wrote v (0 ∷ []);
  bytes = 0 ∷ [];
  runs = write_u8_lem v 0;
  at_end = ground (arith, length-append v.buffer (0 ∷ []));
  grows = refl;
  fits = omega arith;
  reads = λ le table. (rw e (NameAt-end v.buffer []), λ name p h. inl h);
}

abbrev pointer : ℕ → List ℕ
pointer q = bit_or (q % 2 ^ 16) 0xC000 / 256 ∷ (bit_or (q % 2 ^ 16) 0xC000 % 256 ∷ [])

write_labels-pointer :
    (v : VectorPacketBuffer) (label : Text) (labels : List Text) (q : ℕ)
    → lookup_label (join_dots (label ∷ labels)) v.label_lookup ≡ some q
    → write_labels (label ∷ labels) v ≡ ok (tt, wrote v (pointer q))
unfolding write_labels write_label
write_labels-pointer v label labels q found =
    ap (λ o. write_label label (join_dots (label ∷ labels)) (write_labels labels) o v) found
    ∙ write_u16_lem v (bit_or (q % 2 ^ 16) 0xC000)

NameAt-wrote :
    (bytes : List ℕ) (name : Text) (q : ℕ)
    → IsNamed bytes name q
    → NameAt (bytes ++ pointer q) (length name + 2) (length bytes) (length bytes + 2) (text_of name)
NameAt-wrote bytes name q (lt, (stop, n)) =
    rw (small, (pointer_bytes q lt).0, (pointer_bytes q lt).1)
      (NameAt-weaken (omega arith) (λ d. refl) (NameAt-pointer bytes [] lt n))
  where
    small : q % 2 ^ 16 ≡ q
    small = omega arith

pointer-Written :
    (v : VectorPacketBuffer) (label : Text) (labels : List Text) (q : ℕ)
    → v.pos ≡ length v.buffer
    → lookup_label (join_dots (label ∷ labels)) v.label_lookup ≡ some q
    → Written (label ∷ labels) v
pointer-Written v label labels q e found = record {
  after = wrote v (pointer q);
  bytes = pointer q;
  runs = write_labels-pointer v label labels q found;
  at_end = ground (arith, length-append v.buffer (pointer q));
  grows = refl;
  fits = omega arith;
  reads = λ le table. (
    rw e (
        NameAt-wrote v.buffer (join_dots (label ∷ labels)) q
          (table (join_dots (label ∷ labels)) q found (omega arith))),
    λ name p h. inl h,
  );
}

-- The state in which the rest of a name is written: its label is registered, and written.
abbrev began : VectorPacketBuffer → Text → Text → VectorPacketBuffer
began v label name =
    wrote (record v { label_lookup = (name, v.pos) ∷ v.label_lookup }) (length label ∷ label)

write_labels-label :
    (v : VectorPacketBuffer) (label : Text) (labels : List Text)
    → length label < 64
    → lookup_label (join_dots (label ∷ labels)) v.label_lookup ≡ none
    → write_labels (label ∷ labels) v
      ≡ write_labels labels (began v label (join_dots (label ∷ labels)))
unfolding write_labels write_label save_label
write_labels-label v label labels small absent =
    ap (λ o. write_label label name (write_labels labels) o v) absent
    ∙ bind-ok (write_u8 (length label % 256)) (λ _. write_bytes label >> write_labels labels)
        (write_u8_lem saved (length label % 256))
    ∙ bind-ok (write_bytes label) (λ _. write_labels labels)
        (write_bytes_lem label (wrote saved (length label % 256 ∷ [])))
    ∙ ap (write_labels labels)
        (wrote-wrote saved (length label % 256 ∷ []) label ∙ ap (λ n. wrote saved (n ∷ label)) byte)
  where
    name : Text
    name = join_dots (label ∷ labels)

    saved : VectorPacketBuffer
    saved = record v { label_lookup = (name, v.pos) ∷ v.label_lookup }

    byte : length label % 256 ≡ length label
    byte = omega arith

-- An entry in front of a table is found under its name, and hides no other.
lookup_label-new :
    (name other : Text) (q p : ℕ) (table : List (Text × ℕ))
    → lookup_label other ((name, q) ∷ table) ≡ some p
    → ((name ≡ other) × (q ≡ p)) ⊎ (lookup_label other table ≡ some p)
unfolding lookup_label
lookup_label-new name other q p table h = ground (arith, (same_hash_iff name other).0)

pub IsNamed-append :
    (bytes more : List ℕ) (name : Text) (p : ℕ)
    → IsNamed bytes name p
    → IsNamed (bytes ++ more) name p
IsNamed-append bytes more name p (lt, (stop, n)) = (lt, (stop, NameAt-append more n))

module _ (v : VectorPacketBuffer) (label : Text) (labels : List Text) (e : v.pos ≡ length v.buffer)
    (short : IsShort label)
    (absent : lookup_label (join_dots (label ∷ labels)) v.label_lookup ≡ none)
    (w : Written labels (began v label (join_dots (label ∷ labels)))) where
  abbrev search_lbl : Text
  search_lbl = join_dots (label ∷ labels)

  grown : w.after.buffer ≡ v.buffer ++ (length label ∷ (label ++ w.bytes))
  grown = w.grows ∙ append_assoc v.buffer (length label ∷ label) w.bytes

  shorter : length (join_dots labels) < length search_lbl
  shorter = join_dots-length label labels (short.0)

  table_began :
      IsTableBelow (length search_lbl) v
      → IsTableBelow (length (join_dots labels)) (began v label search_lbl)
  table_began table other p h le =
      elim (lookup_label-new search_lbl other v.pos p v.label_lookup h) [
        | inl (same, _) ↦ absurd (omega (arith, shorter, ap length same))
        | inr h' ↦
            IsNamed-append v.buffer (length label ∷ label) other p
              (table other p h' (omega (arith, shorter)))
      ]

  name_here :
      NameAt w.after.buffer
        (tail_need labels)
        (began v label search_lbl).pos
        w.after.pos
        (tail_text labels)
      → NameAt w.after.buffer (length search_lbl + 1) v.pos w.after.pos (text_of search_lbl)
  name_here n = NameAt-weaken (need_of-label label labels (short.0)) (text_of-label label labels) (
      rw (grown, e)
        (NameAt-label v.buffer label w.bytes (short.0) (short.1) (
          subst
            (λ b.
              NameAt b (tail_need labels) (length v.buffer + 1 + length label) w.after.pos
                (tail_text labels))
            grown
            (subst (λ p. NameAt w.after.buffer (tail_need labels) p w.after.pos (tail_text labels))
              at n))))
    where
      at : (began v label search_lbl).pos ≡ length v.buffer + 1 + length label
      at = omega arith

  is_low : length w.after.buffer ≤ 16384 → v.pos < 16384
  is_low le =
      omega (arith, ap length grown, length-append v.buffer (length label ∷ (label ++ w.bytes)))

  new_entries :
      length w.after.buffer ≤ 16384
      → NameAt w.after.buffer (length search_lbl + 1) v.pos w.after.pos (text_of search_lbl)
      → (other : Text) (p : ℕ)
      → (lookup_label other (began v label search_lbl).label_lookup ≡ some p)
        ⊎ IsNamed w.after.buffer other p
      → (lookup_label other v.label_lookup ≡ some p) ⊎ IsNamed w.after.buffer other p
  new_entries le n other p (inr named) = inr named
  new_entries le n other p (inl h) =
      elim (lookup_label-new search_lbl other v.pos p v.label_lookup h) [
        | inl (same, at) ↦ inr (rw (← same, ← at) (is_low le, (w.after.pos, n)))
        | inr h' ↦ inl h'
      ]

  label-Written : Written (label ∷ labels) v
  label-Written = record {
    after = w.after;
    bytes = length label ∷ (label ++ w.bytes);
    runs = write_labels-label v label labels (short.1) absent ∙ w.runs;
    at_end = w.at_end;
    grows = grown;
    fits = omega (
      arith,
      w.fits,
      need_of-label label labels (short.0),
      length-append label w.bytes,
      size_of-label label labels,
    );
    reads = λ le table.
        let (tail, entries) = w.reads le (table_began table) in
        let here = name_here tail in
        (
          NameAt-weaken (omega arith) (λ d. refl) here,
          λ other p h. new_entries le here other p (entries other p h),
        );
  }

pub write_labels_lem :
    (labels : List Text) (v : VectorPacketBuffer)
    → v.pos ≡ length v.buffer
    → All IsShort labels
    → Written labels v
write_labels_lem [] v e short = end-Written v e
write_labels_lem (label ∷ labels) v e (s, ss) =
    elim (Option-cases (lookup_label (join_dots (label ∷ labels)) v.label_lookup)) [
      | inl absent ↦
          label-Written v label labels e s absent
            (write_labels_lem labels (began v label (join_dots (label ∷ labels))) began_end ss)
      | inr (q, found) ↦ pointer-Written v label labels q e found
    ]
  where
    began_end :
        (began v label (join_dots (label ∷ labels))).pos
        ≡ length (began v label (join_dots (label ∷ labels))).buffer
    began_end = ground (arith, length-append v.buffer (length label ∷ label))
