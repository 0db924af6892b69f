-- ===== src/Dns/Buffer/Labels.antt =====
-- Names as lists of labels: their text, and the bytes and rounds that they take.
use gis.Base.{
  ℕ, suc, ◌+◌, ◌<◌, ◌≤◌, ◌≡◌, refl, ap, arith, List, [], ◌∷◌, ◌++◌, length, length-append,
  append_assoc, append-[],
}
use gis.Bytes.{Text}
use gis.Dns.Buffer.{join_dots, to_lowercase, lower}
use gis.Dns.Buffer.Vector.{vector_buffer}
use gis.Dns.Buffer.Names.{NameAt, text_of, no_text}

-- The rounds that the rest of a name takes, and the text that it adds.
abbrev pub tail_need : List Text → ℕ
tail_need [] = 1
tail_need (l ∷ ls) = length (join_dots (l ∷ ls)) + 2

abbrev pub tail_text : List Text → Text → Text
tail_text [] = no_text
tail_text (l ∷ ls) = text_of (join_dots (l ∷ ls))

pub NameAt-weaken :
    {bytes : List ℕ} {need need' start stop : ℕ} {text text' : Text → Text}
    → need ≤ need'
    → ((delim : Text) → text delim ≡ text' delim)
    → NameAt bytes need start stop text
    → NameAt bytes need' start stop text'
NameAt-weaken le same n = record {
  run = λ v rest e fuel h jumped delim outstr.
      rw (← same delim) (n.run v rest e fuel (omega arith) jumped delim outstr);
}

pub to_lowercase-append :
    (xs ys : Text) → to_lowercase (xs ++ ys) ≡ to_lowercase xs ++ to_lowercase ys
unfolding to_lowercase
to_lowercase-append [] ys = refl
to_lowercase-append (x ∷ xs) ys = ap (λ l. lower x ∷ l) (to_lowercase-append xs ys)

abbrev pub IsShort : Text → Type 0
IsShort l = (0 < length l) × (length l < 64)

pub text_of-label :
    (label : Text) (labels : List Text) (delim : Text)
    → delim ++ to_lowercase label ++ tail_text labels (b'.' ∷ [])
      ≡ text_of (join_dots (label ∷ labels)) delim
unfolding join_dots
text_of-label label [] delim = append-[] (delim ++ to_lowercase label)
text_of-label label (m ∷ ms) delim = ground (
  arith,
  to_lowercase-append label (b'.' ∷ join_dots (m ∷ ms)),
  dot (join_dots (m ∷ ms)),
  append_assoc delim (to_lowercase label) (b'.' ∷ to_lowercase (join_dots (m ∷ ms))),
)
  where
    dot : (xs : Text) → to_lowercase (b'.' ∷ xs) ≡ b'.' ∷ to_lowercase xs
    dot xs = unfold to_lowercase in refl

pub need_of-label :
    (label : Text) (labels : List Text)
    → 0 < length label
    → suc (tail_need labels) ≤ length (join_dots (label ∷ labels)) + 1
unfolding join_dots
need_of-label label [] h = omega arith
need_of-label label (m ∷ ms) h = omega (arith, length-append label (b'.' ∷ join_dots (m ∷ ms)))

pub size_of-label :
    (label : Text) (labels : List Text)
    → 1 + length label + tail_need labels ≡ length (join_dots (label ∷ labels)) + 2
unfolding join_dots
size_of-label label [] = omega arith
size_of-label label (m ∷ ms) = omega (arith, length-append label (b'.' ∷ join_dots (m ∷ ms)))

pub join_dots-length :
    (label : Text) (labels : List Text)
    → 0 < length label
    → length (join_dots labels) < length (join_dots (label ∷ labels))
unfolding join_dots
join_dots-length label [] h = omega arith
join_dots-length label (m ∷ ms) h = omega (arith, length-append label (b'.' ∷ join_dots (m ∷ ms)))
