-- ===== src/AgentMetadata/Canonical.antt =====
-- panel/internal/agentcontrol/metadata.go: capabilities that are normalised are normal.
use vps_panel.Prelude.{
  ◌+◌, ◌≤◌, ◌≡◌, refl, ap, ◌∙◌, any, ◌||◌, subst, true, false, ◌&&◌, List, [], ◌∷◌, ◌++◌, arith,
  ltb, length, All, ok, >>=-eq-ok, Bool-cases, inl, inr,
}
use mathlib.Core.List.{reverse, reverse-cons, reverse-reverse}
use vps_panel.Prelude.Text.{Text, text_eq, text_eq_iff, trim_space, trim_left, is_space}
use vps_panel.AgentMetadata.{
  all_codes, insert_unique, is_capability, normalize_capabilities, text_before, unique_sorted,
  valid_metadata_identifier,
}

trim_left-all_codes : (s : Text) → all_codes s ≡ true → trim_left s ≡ s
unfolding trim_left is_space
trim_left-all_codes [] h = refl
trim_left-all_codes (c ∷ s) h = ground arith

text_before_total :
    (s t : Text) → text_eq s t ≡ false → text_before s t ≡ false → text_before t s ≡ true
unfolding text_eq text_before
text_before_total [] [] h k = cc
text_before_total [] (b ∷ t) h k = cc
text_before_total (a ∷ s) [] h k = refl
text_before_total (a ∷ s) (b ∷ t) h k = ground (arith, text_before_total s t)

abbrev pub IsAscending : List Text → Type 0
IsAscending [] = Unit
IsAscending (s ∷ []) = Unit
IsAscending (s ∷ t ∷ ts) = (text_before s t ≡ true) × IsAscending (t ∷ ts)

all_codes-append : (s t : Text) → all_codes (s ++ t) ≡ (all_codes s && all_codes t)
all_codes-append [] t = refl
all_codes-append (c ∷ s) t = ground (arith, all_codes-append s t)

all_codes-reverse : (s : Text) → all_codes s ≡ true → all_codes (reverse s) ≡ true
all_codes-reverse [] h = refl
all_codes-reverse (c ∷ s) h =
    rw (reverse-cons c s)
      (all_codes-append (reverse s) (c ∷ []) ∙ ground (arith, all_codes-reverse s))

trim_space-all_codes : (s : Text) → all_codes s ≡ true → trim_space s ≡ s
unfolding trim_space
trim_space-all_codes s h =
    rw (trim_left-all_codes s h)
      (rw (trim_left-all_codes (reverse s) (all_codes-reverse s h)) (reverse-reverse s))

trim_space-is_capability : (s : Text) → is_capability s ≡ true → trim_space s ≡ s
unfolding valid_metadata_identifier
trim_space-is_capability s h = trim_space-all_codes s (ground arith)

not_eq_before : (s t : Text) → text_before s t ≡ true → text_eq s t ≡ false
unfolding text_eq text_before
not_eq_before [] [] h = cc
not_eq_before [] (b ∷ t) h = refl
not_eq_before (a ∷ s) [] h = cc
not_eq_before (a ∷ s) (b ∷ t) h = ground (arith, not_eq_before s t)

insert_unique-IsAscending :
    (s : Text) (ts : List Text) → IsAscending ts → IsAscending (insert_unique s ts)
unfolding insert_unique
insert_unique-IsAscending s [] h = tt
insert_unique-IsAscending s (t ∷ []) h = ground (arith, text_before_total s t)
insert_unique-IsAscending s (t ∷ u ∷ ts) (h, hs) =
    ground (arith, text_before_total s t, insert_unique-IsAscending s (u ∷ ts) hs)

All-insert_unique :
    (s : Text) (ts : List Text)
    → is_capability s ≡ true
    → All (λ t. is_capability t ≡ true) ts
    → All (λ t. is_capability t ≡ true) (insert_unique s ts)
unfolding insert_unique
All-insert_unique s [] h hs = (h, tt)
All-insert_unique s (t ∷ ts) h (k, ks) =
    let rest = All-insert_unique s ts h ks in
    elim (Bool-cases (text_eq s t)) [
      | inl e ↦ rw e (k, ks)
      | inr e ↦ elim (Bool-cases (text_before s t)) [
        | inl f ↦ rw (e, f) (h, (k, ks))
        | inr f ↦ rw (e, f) (k, rest)
      ]
    ]

length-insert_unique-le : (s : Text) (ts : List Text) → length (insert_unique s ts) ≤ length ts + 1
unfolding insert_unique
length-insert_unique-le s [] = omega arith
length-insert_unique-le s (t ∷ ts) = ground (arith, length-insert_unique-le s ts)

any-insert_unique :
    (c s : Text) (ts : List Text)
    → any (text_eq c) (insert_unique s ts) ≡ (text_eq c s || any (text_eq c) ts)
unfolding insert_unique
any-insert_unique c s [] = refl
any-insert_unique c s (t ∷ ts) =
    let rest = any-insert_unique c s ts in
    elim (Bool-cases (text_eq s t)) [
      | inl e ↦
          let same : text_eq c s ≡ text_eq c t = ap (text_eq c) ((text_eq_iff s t).0 e) in
          rw e (ground (arith, same))
      | inr e ↦ elim (Bool-cases (text_before s t)) [
        | inl f ↦ rw (e, f) refl
        | inr f ↦ rw (e, f) (ground (arith, rest))
      ]
    ]

-- What normalising gives: valid capabilities, each once and in order, and exactly those that are declared.
pub record IsNormal (values ts : List Text) : Type 0 where
  pub valid : All (λ t. is_capability t ≡ true) ts
  pub ascending : IsAscending ts
  pub short : length ts ≤ length values
  pub members : (c : Text) → any (text_eq c) ts ≡ any (λ v. text_eq c (trim_space v)) values

unique_sorted-IsNormal : (values ts : List Text) → unique_sorted values ≡ ok ts → IsNormal values ts
unfolding unique_sorted
unique_sorted-IsNormal [] ts e =
    let none : ◌≡◌ {A = List Text} [] ts = cc in
    subst (IsNormal []) none
      (record { valid = tt; ascending = tt; short = omega arith; members = λ c. refl })
unique_sorted-IsNormal (s ∷ ss) ts e = elim (Bool-cases (is_capability (trim_space s))) [
  | inr bad ↦ let f = rw bad at e in absurd (ground arith)
  | inl good ↦
      let (rest, e', f) =
        >>=-eq-ok (unique_sorted ss) (λ ts. ok (insert_unique (trim_space s) ts)) (rw good at e) in
      let ih = unique_sorted-IsNormal ss rest e' in
      let same : insert_unique (trim_space s) rest ≡ ts = cc in
      subst (IsNormal (s ∷ ss)) same (record {
        valid = All-insert_unique (trim_space s) rest good ih.valid;
        ascending = insert_unique-IsAscending (trim_space s) rest ih.ascending;
        short = omega (arith, ih.short, length-insert_unique-le (trim_space s) rest);
        members = λ c.
            any-insert_unique c (trim_space s) rest
            ∙ ap (λ b. text_eq c (trim_space s) || b) (ih.members c);
      })
]

unique_sorted-normal :
    (ts : List Text)
    → All (λ t. is_capability t ≡ true) ts
    → IsAscending ts
    → unique_sorted ts ≡ ok ts
unfolding unique_sorted insert_unique
unique_sorted-normal [] v h = refl
unique_sorted-normal (s ∷ []) (v, vs) h = rw (trim_space-is_capability s v, v) refl
unique_sorted-normal (s ∷ t ∷ ts) (v, vs) (h, hs) =
    rw
      (trim_space-is_capability s v, v, unique_sorted-normal (t ∷ ts) vs hs, not_eq_before s t h, h)
      refl

unique_sorted-trimmed :
    (values : List Text)
    → All (λ v. is_capability (trim_space v) ≡ true) values
    → (ts : List Text) × (unique_sorted values ≡ ok ts)
unfolding unique_sorted
unique_sorted-trimmed [] h = ([], refl)
unique_sorted-trimmed (v ∷ vs) (h, hs) =
    let (ts, e) = unique_sorted-trimmed vs hs in (insert_unique (trim_space v) ts, rw (h, e) refl)

-- At most 64 capabilities that are valid once they are trimmed are normalised to a list of exactly
-- these, each once and in order; and that list is normalised to itself.
pub normalize_capabilities-IsNormal :
    (values : List Text)
    → length values ≤ 64
    → All (λ v. is_capability (trim_space v) ≡ true) values
    → (ts : List Text) × (normalize_capabilities values ≡ ok ts)
      × IsNormal values ts
      × (normalize_capabilities ts ≡ ok ts)
unfolding normalize_capabilities
normalize_capabilities-IsNormal values few valid =
    let (ts, e) = unique_sorted-trimmed values valid in
    let n = unique_sorted-IsNormal values ts e in
    let room : ltb 64 (length values) ≡ false = ground (arith, few) in
    let still : ltb 64 (length ts) ≡ false = ground (arith, few, n.short) in
    (ts, rw room e, n, rw still (unique_sorted-normal ts n.valid n.ascending))
