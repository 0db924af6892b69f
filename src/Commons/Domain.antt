-- ===== src/Commons/Domain.antt =====
-- What a domain name that `check_domain` accepts looks like, and the two ways to take one apart.
use gis.Base.{
  ℕ, Bool, true, false, not, ◌&&◌, ◌||◌, List, [], ◌∷◌, ◌++◌, Option, none, some, ◌≡◌, ◌≢◌, refl,
  arith, ◌==◌, any,
}
use gis.Bytes.{Text}
use gis.Commons.{
  ends_with_byte, check_chars, check_domain, is_alphanumeric, rsplit_dot, get_domain_zone,
}
use gis.Dns.Buffer.{split_dots, push_front, join_dots}

abbrev pub all : {A : Type 0} → (A → Bool) → List A → Bool
all p [] = true
all p (x ∷ xs) = p x && all p xs

abbrev pub is_label_char : ℕ → Bool
is_label_char c = c == b'-' || is_alphanumeric c

-- A label of letters, digits and hyphens, with a letter or a digit in it.
abbrev pub is_label : Text → Bool
is_label l = any is_alphanumeric l && all is_label_char l

-- The labels of what is left of a name. `after_dot` says that the first one still needs its letter.
abbrev are_labels : Bool → List Text → Bool
are_labels after_dot [] = false
are_labels after_dot (l ∷ ls) =
    (not after_dot || any is_alphanumeric l) && all is_label_char l && all is_label ls

abbrev is_good_end : Text → Bool
is_good_end cs = not (ends_with_byte b'.' cs) && not (ends_with_byte b'-' cs)

abbrev is_empty_text : Text → Bool
is_empty_text [] = true
is_empty_text (c ∷ cs) = false

are_labels-dot : (ls : List Text) → are_labels true ls ≡ true → all is_label ls ≡ true
are_labels-dot [] h = refl
are_labels-dot (l ∷ ls) h = ground arith

are_labels-push :
    (d : Bool) (c : ℕ) (ls : List Text)
    → is_alphanumeric c ≡ true
    → are_labels false ls ≡ true
    → are_labels d (push_front c ls) ≡ true
are_labels-push d c [] a h = absurd (ground arith)
are_labels-push true c (l ∷ ls) a h = ground arith
are_labels-push false c (l ∷ ls) a h = ground arith

are_labels-push_hyphen :
    (d : Bool) (ls : List Text) → are_labels d ls ≡ true → are_labels d (push_front b'-' ls) ≡ true
are_labels-push_hyphen d [] h = absurd (ground arith)
are_labels-push_hyphen d (l ∷ ls) h = ground arith

check_chars-labels :
    (last_dot last_hyphen : Bool) (cs : Text)
    → check_chars true last_dot last_hyphen cs ≡ true
    → is_good_end cs ≡ true
    → (not last_dot || not (is_empty_text cs)) ≡ true
    → are_labels last_dot (split_dots cs) ≡ true
unfolding check_chars split_dots
check_chars-labels last_dot last_hyphen [] h e n = ground arith
check_chars-labels last_dot last_hyphen (c ∷ cs) h e n = ground (
  arith,
  check_chars-labels true last_hyphen cs,
  check_chars-labels last_dot true cs,
  check_chars-labels false false cs,
  are_labels-push last_dot c (split_dots cs),
  are_labels-push_hyphen last_dot (split_dots cs),
  are_labels-dot (split_dots cs),
  good_end-tail c cs,
)
  where
    good_end-tail :
        (c : ℕ) (cs : Text)
        → is_good_end (c ∷ cs) ≡ true
        → (is_empty_text cs ≡ false → is_good_end cs ≡ true)
    good_end-tail c [] h = λ n. absurd (ground arith)
    good_end-tail c (d ∷ ds) h = λ n. h

first_char :
    (c : ℕ) (cs : Text)
    → (c == b'.') ≡ false
    → (c == b'-') ≡ false
    → check_chars true true false (c ∷ cs) ≡ check_chars true false false (c ∷ cs)
unfolding check_chars
first_char c cs d e = ground arith

-- Every label of a name that `check_domain` accepts with dots allowed, the empty name apart, holds a
-- letter or a digit, and nothing but letters, digits and hyphens.
pub check_domain_labels :
    (name : Text)
    → name ≢ []
    → check_domain name true ≡ true
    → all is_label (split_dots name) ≡ true
unfolding check_domain
check_domain_labels [] n h = absurd (n refl)
check_domain_labels (c ∷ cs) n h = ground (
  arith,
  check_chars-labels true false (c ∷ cs),
  first_char c cs,
  are_labels-dot (split_dots (c ∷ cs)),
)

abbrev pub has_no_dot : Text → Bool
has_no_dot l = all (λ c. not (c == b'.')) l

-- What the parts were cut from.
abbrev pub rejoin : Text × Option Text → Text
rejoin (zone, none) = zone
rejoin (zone, some rest) = rest ++ (b'.' ∷ zone)

-- `rsplit_dot` cuts a name at its last dot, if it has one: the zone and what stood before it give the
-- name back, and there is no dot in the zone.
pub rejoin-rsplit_dot :
    (name : Text) → (rejoin (rsplit_dot name) ≡ name) × (has_no_dot (get_domain_zone name) ≡ true)
unfolding get_domain_zone rsplit_dot
rejoin-rsplit_dot [] = (refl, refl)
rejoin-rsplit_dot (c ∷ cs) = ground (arith, rejoin-rsplit_dot cs)

pub split_dots-full : (cs : Text) → split_dots cs ≢ []
unfolding split_dots
split_dots-full [] e = ground arith
split_dots-full (c ∷ cs) e = ground (arith, full (split_dots cs))
  where
    full : (ls : List Text) → push_front c ls ≢ []
    full [] e = ground arith
    full (l ∷ ls) e = ground arith

join_dots-push : (c : ℕ) (ls : List Text) → ls ≢ [] → join_dots (push_front c ls) ≡ c ∷ join_dots ls
unfolding join_dots
join_dots-push c [] n = absurd (n refl)
join_dots-push c (l ∷ []) n = refl
join_dots-push c (l ∷ (m ∷ ms)) n = refl

join_dots-empty : (ls : List Text) → ls ≢ [] → join_dots ([] ∷ ls) ≡ b'.' ∷ join_dots ls
unfolding join_dots
join_dots-empty [] n = absurd (n refl)
join_dots-empty (l ∷ ls) n = refl

-- The labels of a name, joined, are the name, and no label holds a dot.
pub join_dots-split_dots :
    (name : Text) → (join_dots (split_dots name) ≡ name) × (all has_no_dot (split_dots name) ≡ true)
unfolding split_dots
join_dots-split_dots [] = unfold join_dots in (refl, refl)
join_dots-split_dots (c ∷ cs) = ground (
  arith,
  join_dots-split_dots cs,
  join_dots-push c (split_dots cs),
  split_dots-full cs,
  join_dots-empty (split_dots cs),
  no_dot-push (split_dots cs),
)
  where
    no_dot-push :
        (ls : List Text)
        → (c == b'.') ≡ false
        → all has_no_dot ls ≡ true
        → all has_no_dot (push_front c ls) ≡ true
    no_dot-push [] d h = ground arith
    no_dot-push (l ∷ ls) d h = ground arith
